-- ===== src/Tests/Packets.antt =====
-- The theorems on packets and on the configuration.
use happy_server_lite.Base.{
  GoString, codes, List, [], ◌∷◌, Option, none, some, true, false, ◌≡◌, inr, refl, ◌==◌, arith,
  if◌then◌else◌, ℕ, map, eqb, slt,
}
use happy_server_lite.Base.Strconv.{atoi, magnitude, scan, is_digit}
use happy_server_lite.SocketIo.Protocol.{
  Codec, index_byte, build_socket_event_packet, build_socket_ack_packet, parse_socket_event_packet,
  parse_socket_ack_packet,
}
use happy_server_lite.SocketIo.Protocol.Prefixes.{IsNamespace, namespace_read}
use happy_server_lite.SocketIo.Protocol.RoundTrip.{IsJson, IdFits}
use happy_server_lite.Config.{Config, load_config_from_env, port_of, secret_of, expiry_of}
use happy_server_lite.Config.Loaded.{IsValid}
use happy_server_lite.SocketIo.Protocol.RoundTrip.{parse_event-build, parse_ack-build}
use happy_server_lite.Config.Loaded.{load_config_from_env-IsValid}

-- An encoding in the place of JSON: a byte behind a mark, and another mark behind each string.
abbrev encode : GoString → GoString → GoString
encode [] rest = 59 ∷ rest
encode (c ∷ s) rest = 44 ∷ c ∷ encode s rest

abbrev encode_all : List GoString → GoString
encode_all [] = []
encode_all (v ∷ vs) = encode v (encode_all vs)

abbrev begin : Option (List GoString) → Option (List GoString)
begin none = none
begin (some vs) = some ([] ∷ vs)

abbrev push : ℕ → Option (List GoString) → Option (List GoString)
push c none = none
push c (some []) = none
push c (some (v ∷ vs)) = some ((c ∷ v) ∷ vs)

abbrev decode : GoString → Option (List GoString)
decode [] = some []
decode (mark ∷ []) = some ([] ∷ [])
decode (mark ∷ c ∷ t) =
    let fresh = begin (decode (c ∷ t)) in
    let longer = push c (decode t) in if eqb mark 59 then fresh else longer

decode-encode :
    (s rest : GoString) (vs : List GoString)
    → decode rest ≡ some vs
    → decode (encode s rest) ≡ some (s ∷ vs)
decode-encode [] [] vs h = cc
decode-encode [] (c ∷ t) vs h = ground (arith, h)
decode-encode (c ∷ s) rest vs h = ground (arith, decode-encode s rest vs h)

decode-encode_all : (vs : List GoString) → decode (encode_all vs) ≡ some (map (λ v. v) vs)
decode-encode_all [] = refl
decode-encode_all (v ∷ vs) = decode-encode v (encode_all vs) _ (decode-encode_all vs)

abbrev decode_array : GoString → Option (List GoString)
decode_array [] = none
decode_array (c ∷ t) = decode t

abbrev codec_1 : Codec GoString
codec_1 = record {
  string_value = λ s. s;
  raw = λ v. v;
  valid_utf8 = λ s. true;
  marshal_array = λ vs. some (91 ∷ encode_all vs);
  marshal_sid = λ s. some s;
  unmarshal_array = decode_array;
  unmarshal_string = λ s. some s;
}

same_text :
    (vs : List GoString) (text : GoString)
    → codec_1.marshal_array vs ≡ some text
    → (91 ∷ encode_all vs) ≡ text
same_text vs text h = cc h

codec_1-IsJson : IsJson codec_1
codec_1-IsJson = record {
  array_opens = λ vs text h. rw (← same_text vs text h) refl;
  array_back = λ vs text h. rw (← same_text vs text h) (decode-encode_all vs);
  string_back = λ s h. refl;
}

machine-IsNamespace : IsNamespace (codes "/machine")
unfolding index_byte
machine-IsNamespace = record { opens = λ h. refl; no_comma = refl }

seven_fits : IdFits (some 7)
seven_fits = record { fits = λ n e. ground (arith, e) }

abbrev env_1 : GoString → GoString
env_1 key =
    if key == codes "PORT"
    then codes "8080"
    else if key == codes "MASTER_SECRET"
    then codes "secret"
    else if key == codes "TOKEN_EXPIRY_SECONDS"
    then codes "60"
    else []

abbrev config_1 : Config
config_1 = record {
  port = 8080;
  master_secret = codes "secret";
  gin_mode = codes "release";
  tls_cert_file = [];
  tls_key_file = [];
  token_expiry = 60000000000;
  machines_state_file = [];
}

loaded_1 : load_config_from_env env_1 ≡ inr config_1
unfolding load_config_from_env port_of secret_of expiry_of atoi magnitude scan is_digit ◌==◌
loaded_1 = refl

-- A positive number of seconds is accepted and wraps around to a negative duration.
wraps_around :
    (expiry_of (codes "9223372037") ≡ inr 9223372037000000000) × (slt 0 9223372037000000000 ≡ false)
unfolding expiry_of atoi magnitude scan is_digit
wraps_around = (refl, refl)

parse_event-build_example :
    (packet : GoString) × (build_socket_event_packet codec_1
        (codes "/machine")
        (some 7)
        (codes "update")
        (codes "x" ∷ [])
      ≡ some packet)
    × (parse_socket_event_packet codec_1 packet
        ≡ inr (record {
          namespace = namespace_read (codes "/machine");
          id = (some 7);
          event = (codes "update");
          args = map codec_1.raw (codes "x" ∷ []);
        }))
parse_event-build_example =
    parse_event-build codec_1 codec_1-IsJson (codes "/machine") (some 7) (codes "update")
      (codes "x" ∷ []) (91 ∷ encode_all (codes "update" ∷ codes "x" ∷ [])) machine-IsNamespace
      seven_fits refl refl

parse_ack-build_example :
    (packet : GoString) × (build_socket_ack_packet codec_1 (codes "/machine") 7 (codes "x" ∷ [])
      ≡ some packet)
    × (parse_socket_ack_packet codec_1 packet
        ≡ inr (record {
          namespace = namespace_read (codes "/machine");
          id = 7;
          args = map codec_1.raw (codes "x" ∷ []);
        }))
parse_ack-build_example =
    parse_ack-build codec_1 codec_1-IsJson (codes "/machine") 7 (codes "x" ∷ [])
      (91 ∷ encode_all (codes "x" ∷ [])) machine-IsNamespace (omega arith) refl

load_config_from_env-IsValid_example : IsValid env_1 config_1
load_config_from_env-IsValid_example = load_config_from_env-IsValid env_1 config_1 loaded_1
