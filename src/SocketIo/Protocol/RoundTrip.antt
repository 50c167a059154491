-- ===== src/SocketIo/Protocol/RoundTrip.antt =====
-- What is built is read back, with the documented behaviour of encoding/json as hypotheses.
use happy_server_lite.Base.{
  GoString, List, [], ◌∷◌, ◌++◌, Option, none, some, true, false, inr, ◌≡◌, refl, subst, ℕ, ◌<◌,
  two_63, arith, map,
}
use happy_server_lite.Base.Strconv.{is_digit, itoa, all_digits, itoa-all_digits}
use happy_server_lite.SocketIo.Protocol.{
  Codec, bracket, slash, has_prefix, id_part, parse_optional_id_prefix, parse_socket_event_packet,
  parse_socket_ack_packet, build_socket_event_packet, build_socket_ack_packet, namespace_part,
  socket_event, socket_ack,
}
use happy_server_lite.SocketIo.Protocol.Prefixes.{
  IsNamespace, namespace_read, parse_namespace_part, parse_id_part, parse_no_id,
}

-- `json.Marshal` of a slice that is not nil prints an array, `json.Unmarshal` into raw messages gives
-- the texts of its elements, and a string of valid UTF-8 survives both.
pub record IsJson {Value : Type 0} (json : Codec Value) : Type 0 where
  pub array_opens :
      (vs : List Value) (text : GoString)
      → json.marshal_array vs ≡ some text
      → has_prefix bracket text ≡ true
  pub array_back :
      (vs : List Value) (text : GoString)
      → json.marshal_array vs ≡ some text
      → json.unmarshal_array text ≡ some (map json.raw vs)
  pub string_back :
      (s : GoString)
      → json.valid_utf8 s ≡ true
      → json.unmarshal_string (json.raw (json.string_value s)) ≡ some s

-- An `int` that is not negative.
pub record IdFits (id : Option ℕ) : Type 0 where
  pub fits : (n : ℕ) → id ≡ some n → n < two_63

digits-no_slash :
    (s t : GoString)
    → all_digits s ≡ true
    → has_prefix slash t ≡ false
    → has_prefix slash (s ++ t) ≡ false
unfolding all_digits is_digit
digits-no_slash [] t d h = h
digits-no_slash (c ∷ s) t d h = ground (arith, d)

bracket-no_slash : (t : GoString) → has_prefix bracket t ≡ true → has_prefix slash t ≡ false
bracket-no_slash [] h = refl
bracket-no_slash (c ∷ t) h = ground (arith, h)

id_part-no_slash :
    (id : Option ℕ) (text : GoString)
    → IdFits id
    → has_prefix bracket text ≡ true
    → has_prefix slash (id_part id ++ text) ≡ false
id_part-no_slash none text f h = bracket-no_slash text h
id_part-no_slash (some n) text f h =
    digits-no_slash (itoa n) text (itoa-all_digits n (f.fits n refl)) (bracket-no_slash text h)

bracket-not_digit : (c : ℕ) (t : GoString) → has_prefix bracket (c ∷ t) ≡ true → is_digit c ≡ false
unfolding is_digit
bracket-not_digit c t h = ground (arith, h)

parse-id_part :
    (id : Option ℕ) (text : GoString)
    → IdFits id
    → has_prefix bracket text ≡ true
    → parse_optional_id_prefix (id_part id ++ text) ≡ (id, text)
parse-id_part id [] f h = cc
parse-id_part none (c ∷ t) f h = parse_no_id c t (bracket-not_digit c t h)
parse-id_part (some n) (c ∷ t) f h = parse_id_part n c t (f.fits n refl) (bracket-not_digit c t h)

module _ {Value : Type 0} (json : Codec Value) (laws : IsJson json) where
  -- An event with a namespace that is empty or a slash and no comma, an id that is not negative or none,
  -- and a name in UTF-8 is built if its arguments can be marshalled, and is then read back: the same
  -- namespace, up to the two spellings of the default one, id and name, and the arguments as raw JSON.
  pub parse_event-build :
      (ns : GoString) (id : Option ℕ) (event : GoString) (args : List Value) (text : GoString)
      → IsNamespace ns
      → IdFits id
      → json.valid_utf8 event ≡ true
      → json.marshal_array (json.string_value event ∷ args) ≡ some text
      → (packet : GoString) × (build_socket_event_packet json ns id event args ≡ some packet)
        × (parse_socket_event_packet json packet
            ≡ inr (record {
              namespace = namespace_read ns;
              id = id;
              event = event;
              args = map json.raw args;
            }))
  unfolding build_socket_event_packet parse_socket_event_packet
  parse_event-build ns id event args text w f v m =
      let b = laws.array_opens _ text m in
      let read = parse_namespace_part ns (id_part id ++ text) w (id_part-no_slash id text f b) in
      let tag = parse-id_part id text f b in
      let back = laws.array_back _ text m in
      let name = laws.string_back event v in
      (
        socket_event ∷ (namespace_part ns ++ (id_part id ++ text)),
        rw m refl,
        rw (read, tag, b, back, name) refl,
      )

  -- So is an acknowledgement with such a namespace and an id that is not negative: it is built if its
  -- arguments can be marshalled, and read back as the same namespace, id and raw arguments.
  pub parse_ack-build :
      (ns : GoString) (id : ℕ) (args : List Value) (text : GoString)
      → IsNamespace ns
      → id < two_63
      → json.marshal_array args ≡ some text
      → (packet : GoString) × (build_socket_ack_packet json ns id args ≡ some packet)
        × (parse_socket_ack_packet json packet
            ≡ inr (record { namespace = namespace_read ns; id = id; args = map json.raw args }))
  unfolding build_socket_ack_packet parse_socket_ack_packet
  parse_ack-build ns id args text w f m =
      let fits : IdFits (some id) = record { fits = λ n e. subst (λ m. m < two_63) (cc e) f } in
      let b = laws.array_opens _ text m in
      let read =
        parse_namespace_part ns (itoa id ++ text) w (id_part-no_slash (some id) text fits b) in
      let tag = parse-id_part (some id) text fits b in
      let back = laws.array_back _ text m in
      (
        socket_ack ∷ (namespace_part ns ++ (itoa id ++ text)),
        rw m refl,
        rw (read, tag, b, back) refl,
      )
