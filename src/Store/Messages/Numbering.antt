-- ===== src/Store/Messages/Numbering.antt =====
-- Messages numbered without a gap, and the window that the loop of `getAfter` cuts out of them.
use mathlib.Core.Path.{ap₂}
use mathlib.Core.List.{append-nil, append_assoc}
use happy_server_lite.Base.{
  ℕ, suc, ◌+◌, ◌-◌, ◌≤◌, ◌<◌, ◌≡◌, refl, sym, ap, ◌∙◌, Bool, true, List, [], ◌∷◌, ◌++◌, length,
  length-append, take, drop, filter, take-suc, take-zero, take-nil, drop-nil, drop-zero, drop-suc,
  slt, slt_small, ltb, two_63, two_64, if◌then◌else◌, inl, inr, Bool-cases, ltb→lt, not-ltb→le,
  arith,
}
use happy_server_lite.Model.{SessionMessage}
use happy_server_lite.Store.Messages.{collect_after}

-- The numbers go up by one, from the one after `n`.
abbrev pub Numbered : ℕ → List SessionMessage → Type 0
Numbered n [] = Unit {0}
Numbered n (m ∷ ms) = (m.seq ≡ suc n) × Numbered (suc n) ms

pub Numbered-append :
    (n : ℕ) (ms : List SessionMessage) (m : SessionMessage)
    → Numbered n ms
    → m.seq ≡ suc (n + length ms)
    → Numbered n (ms ++ m ∷ [])
Numbered-append n [] m h e = (omega arith, tt)
Numbered-append n (x ∷ ms) m h e = (h.0, Numbered-append (suc n) ms m h.1 (omega arith))

abbrev after_cursor : ℕ → SessionMessage → Bool
after_cursor after m = slt after m.seq

-- The loop keeps the first `limit` messages past the cursor, behind what it holds already.
collect_after-take :
    (after limit : ℕ) (result msgs : List SessionMessage)
    → limit < two_63
    → length result < limit
    → collect_after after limit result msgs
      ≡ result ++ take (limit - length result) (filter (after_cursor after) msgs)
unfolding collect_after filter
collect_after-take after limit result [] h k =
    rw (take-nil (limit - length result)) (sym (append-nil result))
collect_after-take after limit result (m ∷ ms) h k =
    let collected = result ++ m ∷ [] in
    let rest = filter (after_cursor after) ms in
    let grown : length collected ≡ length result + 1 = length-append result (m ∷ []) in
    let small = slt_small (length collected) limit (omega arith) h in
    let next = λ (j : ℕ). result ++ m ∷ take j rest in
    elim (Bool-cases (slt after m.seq)) [
      | inr skip ↦ ground (arith, skip, collect_after-take after limit result ms h k)
      | inl hit ↦
          rw (hit, take-suc (limit - length result) m rest (omega arith))
            (elim (Bool-cases (slt (length collected) limit)) [
              | inl more ↦ rw more (
                  collect_after-take after limit collected ms h (ground (arith, small))
                  ∙ append_assoc result (m ∷ []) (take (limit - length collected) rest)
                  ∙ ap next (omega arith))
              | inr full ↦
                  let last : limit - length result - 1 ≡ 0 = ground (arith, small) in
                  rw full (
                    sym (
                      ap next last
                      ∙ ap (λ (t : List SessionMessage). result ++ m ∷ t) (take-zero rest)))
            ])
    ]

-- Past a cursor that is not negative, the numbered messages from that number on are left.
filter-Numbered :
    (after n : ℕ) (ms : List SessionMessage)
    → Numbered n ms
    → after < two_63
    → n + length ms < two_63
    → filter (after_cursor after) ms ≡ drop (after - n) ms
unfolding filter
filter-Numbered after n [] h a k = sym (drop-nil (after - n))
filter-Numbered after n (m ∷ ms) h a k =
    let rest = filter-Numbered after (suc n) ms h.1 a (omega arith) in
    let small = slt_small after m.seq a (omega (arith, h.0)) in
    elim (Bool-cases (slt after m.seq)) [
      | inl hit ↦
          let none_left : after - n ≡ 0 = ground (arith, small, h.0) in
          let none_after : after - suc n ≡ 0 = omega arith in
          rw (hit, none_left, drop-zero) (ap (◌∷◌ m) (rest ∙ rw (none_after, drop-zero)))
      | inr skip ↦
          rw (skip, drop-suc (after - n) m ms (ground (arith, small, h.0)))
            (rest ∙ ap (λ (t : ℕ). drop t ms) (omega arith))
    ]

-- A negative cursor passes every message.
filter_negative :
    (after n : ℕ) (ms : List SessionMessage)
    → Numbered n ms
    → two_63 ≤ after
    → after < two_64
    → n + length ms < two_63
    → filter (after_cursor after) ms ≡ ms
unfolding filter
filter_negative after n [] h a b k = refl
filter_negative after n (m ∷ ms) h a b k =
    let hit : slt after m.seq ≡ true = ground (arith, h.0) in
    rw hit (ap (◌∷◌ m) (filter_negative after (suc n) ms h.1 a b (omega arith)))

-- The whole page: from nothing collected, over messages numbered from 1.
pub collect_after-page :
    (after limit : ℕ) (ms : List SessionMessage)
    → Numbered 0 ms
    → length ms < two_63
    → after < two_64
    → limit < two_63
    → 0 < limit
    → collect_after after limit [] ms ≡ take limit (if ltb after two_63 then drop after ms else ms)
collect_after-page after limit ms numbered short a small positive =
    let page = collect_after-take after limit [] ms small positive in
    let whole : limit - 0 ≡ limit = omega arith in
    let skip : after - 0 ≡ after = omega arith in
    elim (Bool-cases (ltb after two_63)) [
      | inl past ↦
          let rest = filter-Numbered after 0 ms numbered (ltb→lt after two_63 past) (omega arith) in
          rw past (page ∙ ap₂ take whole (rest ∙ ap (λ (t : ℕ). drop t ms) skip))
      | inr negative ↦
          let rest =
            filter_negative after 0 ms numbered (not-ltb→le after two_63 negative) a
              (omega arith) in
          rw negative (page ∙ ap₂ take whole rest)
    ]
