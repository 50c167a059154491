-- ===== src/SocketIo/Protocol/Prefixes.antt =====
-- Reading the namespace and the id back from the front of a packet.
use happy_server_lite.Base.{
  GoString, [], ◌∷◌, ◌++◌, none, some, true, false, inl, inr, ◌≡◌, refl, ap, take, drop, ℕ, suc,
  ◌+◌, ◌<◌, ◌<◌, ◌≢◌, length, arith, Bool-cases, Option-cases, ==_iff, ◌==◌, drop-zero, two_63,
}
use happy_server_lite.Base.Strconv.{
  is_digit, itoa, all_digits, itoa-all_digits, itoa-ne-nil, atoi-itoa,
}
use happy_server_lite.SocketIo.Protocol.{
  index_byte, slash, comma, has_prefix, parse_optional_namespace, digits_end,
  parse_optional_id_prefix, namespace_part,
}

take-append : (s t : GoString) → take (length s) (s ++ t) ≡ s
unfolding take
take-append [] t = ground arith
take-append (c ∷ s) t = ap (◌∷◌ c) (take-append s t)

drop-append : (s t : GoString) → drop (length s) (s ++ t) ≡ t
unfolding drop
drop-append [] t = refl
drop-append (c ∷ s) t = drop-append s t

drop-append_suc : (s : GoString) (c : ℕ) (t : GoString) → drop (length s + 1) (s ++ c ∷ t) ≡ t
unfolding drop
drop-append_suc [] c t = drop-zero t
drop-append_suc (d ∷ s) c t =
    let shift : suc (length s) + 1 ≡ suc (length s + 1) = omega arith in
    rw shift (drop-append_suc s c t)

index_byte-append :
    (s t : GoString)
    → index_byte s comma ≡ none
    → index_byte (s ++ comma ∷ t) comma ≡ some (length s)
unfolding index_byte
index_byte-append [] t h = refl
index_byte-append (c ∷ s) t h = elim (Option-cases (index_byte s comma)) [
  | inl e ↦ ground (arith, h, index_byte-append s t e)
  | inr (i, e) ↦ ground (arith, h, e)
]

digits_end-append :
    (s : GoString) (c : ℕ) (t : GoString)
    → all_digits s ≡ true
    → is_digit c ≡ false
    → digits_end (s ++ c ∷ t) ≡ length s
unfolding digits_end all_digits
digits_end-append [] c t h n = ground (arith, n)
digits_end-append (d ∷ s) c t h n = ground (arith, n, digits_end-append s c t)

has_prefix-append : (c : ℕ) (s t : GoString) → has_prefix c s ≡ true → has_prefix c (s ++ t) ≡ true
has_prefix-append c [] t h = cc
has_prefix-append c (d ∷ s) t h = h

cut_namespace :
    (s t : GoString)
    → has_prefix slash s ≡ true
    → index_byte s comma ≡ none
    → parse_optional_namespace (s ++ comma ∷ t) ≡ (s, t)
unfolding parse_optional_namespace
cut_namespace s t p n = ground (
  arith,
  has_prefix-append slash s (comma ∷ t) p,
  index_byte-append s t n,
  take-append s (comma ∷ t),
  drop-append_suc s comma t,
)

parse_plain :
    (s : GoString) → has_prefix slash s ≡ false → parse_optional_namespace s ≡ (slash ∷ [], s)
unfolding parse_optional_namespace
parse_plain s h = ground (arith, h)

-- the namespace that the reader reports: both spellings of the default one are `/`
unfoldable pub namespace_read : GoString → GoString
unfolding ◌==◌
namespace_read [] = slash ∷ []
namespace_read (c ∷ s) = c ∷ s

-- A namespace as the program uses them: empty, or `/` and then no comma.
pub record IsNamespace (ns : GoString) : Type 0 where
  pub opens : ns ≢ [] → has_prefix slash ns ≡ true
  pub no_comma : index_byte ns comma ≡ none

snoc-append : (s : GoString) (c : ℕ) (t : GoString) → (s ++ c ∷ []) ++ t ≡ s ++ c ∷ t
snoc-append [] c t = refl
snoc-append (d ∷ s) c t = ap (◌∷◌ d) (snoc-append s c t)

-- A namespace written before text that does not begin with `/` is read back, with what follows it.
pub parse_namespace_part :
    (ns t : GoString)
    → IsNamespace ns
    → has_prefix slash t ≡ false
    → parse_optional_namespace (namespace_part ns ++ t) ≡ (namespace_read ns, t)
unfolding namespace_part namespace_read
parse_namespace_part [] t w h = parse_plain t h
parse_namespace_part (c ∷ s) t w h = elim (Bool-cases ((c ∷ s) == (slash ∷ []))) [
  | inl e ↦ let q = (==_iff (c ∷ s) (slash ∷ [])).0 e in rw (e, q) (parse_plain t h)
  | inr e ↦ rw (e, snoc-append (c ∷ s) comma t) (cut_namespace (c ∷ s) t (w.opens (cc)) w.no_comma)
]

nonempty : (s : GoString) → s ≢ [] → 0 < length s
nonempty [] h = absurd (h refl)
nonempty (c ∷ s) h = omega arith

-- Digits and then something else: the number is read, and the rest left.
pub parse_id_part :
    (id : ℕ) (c : ℕ) (t : GoString)
    → id < two_63
    → is_digit c ≡ false
    → parse_optional_id_prefix (itoa id ++ c ∷ t) ≡ (some id, c ∷ t)
unfolding parse_optional_id_prefix
parse_id_part id c t h n =
    let end = digits_end-append (itoa id) c t (itoa-all_digits id h) n in
    let back = atoi-itoa id (omega (arith, h)) in
    ground (
      arith,
      end,
      back,
      take-append (itoa id) (c ∷ t),
      drop-append (itoa id) (c ∷ t),
      itoa-ne-nil id h,
      nonempty (itoa id),
    )

pub parse_no_id :
    (c : ℕ) (t : GoString) → is_digit c ≡ false → parse_optional_id_prefix (c ∷ t) ≡ (none, c ∷ t)
unfolding parse_optional_id_prefix digits_end
parse_no_id c t n = ground (arith, n)
