-- ===== src/SocketIo/Protocol.antt =====
-- internal/socketio/protocol.go: the packets of Engine.IO and Socket.IO. encoding/json is a
-- parameter; a raw JSON message is its bytes.
pub mod Prefixes
pub mod RoundTrip
use happy_server_lite.Base.{
  GoString, ◌==◌, List, [], ◌∷◌, ◌++◌, Option, none, some, Bool, true, false, not, ◌&&◌, ◌⊎◌, inl,
  inr, if◌then◌else◌, eqb, take, drop, ℕ, suc, zero, ◌+◌, length, map,
}
use happy_server_lite.Base.Strconv.{is_digit, atoi, itoa}

infixl 5 ◌>>=◌
abbrev pub ◌>>=◌ : {A B : Type 0} → Option A → (A → Option B) → Option B
none >>= f = none
some a >>= f = f a

-- What the packets use of encoding/json: `json.Marshal` of an `[]any` and of the connect record,
-- `json.Unmarshal` into an `[]json.RawMessage` and into a string.
pub record Codec (Value : Type 0) : Type 0 where
  pub string_value : GoString → Value
  pub raw : Value → GoString
  pub valid_utf8 : GoString → Bool
  pub marshal_array : List Value → Option GoString
  pub marshal_sid : GoString → Option GoString
  pub unmarshal_array : GoString → Option (List GoString)
  pub unmarshal_string : GoString → Option GoString

abbrev pub socket_connect : ℕ
socket_connect = 48

abbrev pub socket_event : ℕ
socket_event = 50

abbrev pub socket_ack : ℕ
socket_ack = 51

abbrev pub slash : ℕ
slash = 47

abbrev pub comma : ℕ
comma = 44

abbrev pub bracket : ℕ
bracket = 91

-- `strings.HasPrefix(s, c)` for one byte
abbrev pub has_prefix : ℕ → GoString → Bool
has_prefix c [] = false
has_prefix c (d ∷ s) = eqb d c

-- `strings.IndexByte`, with `none` for -1
unfoldable pub index_byte : GoString → ℕ → Option ℕ
index_byte [] c = none
index_byte (d ∷ s) c =
    let rest : Option ℕ = elim (index_byte s c) [ none ↦ none | some i ↦ some (suc i) ] in
    if eqb d c then some 0 else rest

unfoldable pub parse_optional_namespace : GoString → GoString × GoString
unfolding index_byte take drop
parse_optional_namespace s =
    let split : GoString × GoString = elim (index_byte s comma) [
      | none ↦ (slash ∷ [], s)
      | some i ↦ (take i s, drop (i + 1) s)
    ] in
    if has_prefix slash s then split else (slash ∷ [], s)

-- where the loop over the digits ends
unfoldable pub digits_end : GoString → ℕ
unfolding is_digit
digits_end [] = 0
digits_end (c ∷ s) = let rest = digits_end s in if is_digit c then suc rest else 0

unfoldable pub parse_optional_id_prefix : GoString → Option ℕ × GoString
unfolding digits_end atoi take drop
parse_optional_id_prefix s =
    let i = digits_end s in
    let parsed : Option ℕ × GoString = elim (atoi (take i s)) [
      | none ↦ (none, s)
      | some v ↦ (some v, drop i s)
    ] in
    if eqb i 0 then (none, s) else parsed

pub data ParseError : Type 0 where
  empty_payload not_an_event_packet not_an_ack_packet missing_ack_id invalid_payload invalid_json
        missing_event_name invalid_event_name :
      ParseError

pub record EventPacket : Type 0 where
  pub namespace : GoString
  pub id : Option ℕ
  pub event : GoString
  pub args : List GoString

pub record AckPacket : Type 0 where
  pub namespace : GoString
  pub id : ℕ
  pub args : List GoString

-- `if namespace != "" && namespace != "/"`
unfoldable pub namespace_part : GoString → GoString
unfolding ◌==◌
namespace_part namespace =
    if not (namespace == []) && not (namespace == (slash ∷ [])) then namespace ++ comma ∷ [] else []

abbrev pub id_part : Option ℕ → GoString
id_part none = []
id_part (some id) = itoa id

module _ {Value : Type 0} (json : Codec Value) where
  abbrev event_named :
      GoString → Option ℕ → List GoString → Option GoString → ParseError ⊎ EventPacket
  event_named ns id args none = inl ParseError.invalid_event_name
  event_named ns id args (some name) =
      inr (record { namespace = ns; id = id; event = name; args = args })

  abbrev event_of : GoString → Option ℕ → Option (List GoString) → ParseError ⊎ EventPacket
  event_of ns id none = inl ParseError.invalid_json
  event_of ns id (some []) = inl ParseError.missing_event_name
  event_of ns id (some (name ∷ args)) = event_named ns id args (json.unmarshal_string name)

  unfoldable pub parse_socket_event_packet : GoString → ParseError ⊎ EventPacket
  parse_socket_event_packet [] = inl ParseError.empty_payload
  parse_socket_event_packet (c ∷ payload) =
      let (ns, tagged) = parse_optional_namespace payload in
      let (id, rest) = parse_optional_id_prefix tagged in
      let body = event_of ns id (json.unmarshal_array rest) in
      if not (eqb c socket_event)
      then inl ParseError.not_an_event_packet
      else if not (has_prefix bracket rest)
      then inl ParseError.invalid_payload
      else body

  abbrev ack_of : GoString → ℕ → Option (List GoString) → ParseError ⊎ AckPacket
  ack_of ns id none = inl ParseError.invalid_json
  ack_of ns id (some args) = inr (record { namespace = ns; id = id; args = args })

  abbrev ack_tagged : GoString → Option ℕ → GoString → ParseError ⊎ AckPacket
  ack_tagged ns none rest = inl ParseError.missing_ack_id
  ack_tagged ns (some id) rest =
      let body = ack_of ns id (json.unmarshal_array rest) in
      if not (has_prefix bracket rest) then inl ParseError.invalid_payload else body

  unfoldable pub parse_socket_ack_packet : GoString → ParseError ⊎ AckPacket
  parse_socket_ack_packet [] = inl ParseError.empty_payload
  parse_socket_ack_packet (c ∷ payload) =
      let (ns, tagged) = parse_optional_namespace payload in
      let (id, rest) = parse_optional_id_prefix tagged in
      let body = ack_tagged ns id rest in
      if not (eqb c socket_ack) then inl ParseError.not_an_ack_packet else body

  unfoldable pub build_socket_event_packet :
      GoString → Option ℕ → GoString → List Value → Option GoString
  build_socket_event_packet namespace id event args = do
    data_ ← json.marshal_array (json.string_value event ∷ args)
    some (socket_event ∷ (namespace_part namespace ++ (id_part id ++ data_)))

  unfoldable pub build_socket_connect_packet : GoString → GoString → Option GoString
  build_socket_connect_packet namespace sid = do
    data_ ← json.marshal_sid sid
    some (socket_connect ∷ (namespace_part namespace ++ data_))

  -- A nil `args` is made an empty one, so the two are one list.
  unfoldable pub build_socket_ack_packet : GoString → ℕ → List Value → Option GoString
  build_socket_ack_packet namespace id args = do
    data_ ← json.marshal_array args
    some (socket_ack ∷ (namespace_part namespace ++ (itoa id ++ data_)))
