-- ===== src/SocketIo/Acks/Once.antt =====
-- No call gets two answers, whatever the client sends and in whatever order.
use happy_server_lite.Base.{
  ℕ, ◌+◌, ◌≤◌, ◌<◌, suc, GoString, true, if◌then◌else◌, eqb, eqb_iff, inc64, two_63, List, [], ◌∷◌,
  ◌++◌, length, ◌≡◌, ap, arith, Bool-cases, inl, inr,
}
use happy_server_lite.Base.Pointers.{contains, remove, contains-add, contains-remove}
use happy_server_lite.SocketIo.Acks.{Acks, begin_ack, give_up, resolve_ack, Step, step, run}

-- how many answers went to a call
abbrev answers_to : ℕ → List (ℕ × List GoString) → ℕ
answers_to id [] = 0
answers_to id ((j, args) ∷ answers) =
    let rest = answers_to id answers in if eqb j id then suc rest else rest

answers_to-append :
    (id j : ℕ) (args : List GoString) (answers : List (ℕ × List GoString))
    → answers_to id (answers ++ (j, args) ∷ [])
      ≡ (if eqb j id then suc (answers_to id answers) else answers_to id answers)
answers_to-append id j args [] = ground arith
answers_to-append id j args ((i, xs) ∷ answers) =
    ground (arith, answers_to-append id j args answers)

same_answers :
    (i j : ℕ) (answers : List (ℕ × List GoString))
    → eqb j i ≡ true
    → answers_to i answers ≡ answers_to j answers
same_answers i j answers e =
    let q : i ≡ j = ground (arith, e) in ap (λ (k : ℕ). answers_to k answers) q

-- A call that waits was begun and has no answer; no call has two; and only calls that were begun have
-- one.
pub record Consistent (t : Acks) : Type 0 where
  pub waiting :
      (id : ℕ)
      → contains t.pending_ack id ≡ true
      → (id ≤ t.next_ack_id) × (answers_to id t.answers ≡ 0)
  pub once : (id : ℕ) → answers_to id t.answers ≤ 1
  pub begun : (id : ℕ) → t.next_ack_id < id → answers_to id t.answers ≡ 0

begin_ack-Consistent :
    (t : Acks) → t.next_ack_id + 1 < two_63 → Consistent t → Consistent (begin_ack t)
unfolding begin_ack
begin_ack-Consistent t small v =
    let id : ℕ = inc64 t.next_ack_id in
    record {
      waiting = λ i h.
          ground (
            arith,
            small,
            h,
            contains-add id t.pending_ack i,
            v.waiting i,
            v.begun i,
            eqb_iff id i,
          );
      once = v.once;
      begun = λ i h. ground (arith, small, h, v.begun i);
    }

give_up-Consistent : (t : Acks) (id : ℕ) → Consistent t → Consistent (give_up t id)
unfolding give_up
give_up-Consistent t id v = record {
  waiting = λ i h. ground (arith, h, contains-remove id t.pending_ack i, v.waiting i);
  once = v.once;
  begun = v.begun;
}

resolve_ack-Consistent :
    (t : Acks) (id : ℕ) (args : List GoString) → Consistent t → Consistent (resolve_ack t id args)
unfolding resolve_ack
resolve_ack-Consistent t id args v = elim (Bool-cases (contains t.pending_ack id)) [
  | inl there ↦
      let answered : Acks = record t {
        pending_ack = remove id t.pending_ack;
        answers = t.answers ++ (id, args) ∷ [];
      } in
      let kept : Consistent answered = record {
        waiting = λ i h. ground (
          arith,
          h,
          contains-remove id t.pending_ack i,
          v.waiting i,
          answers_to-append i id args t.answers,
        );
        once = λ i. ground (
          arith,
          there,
          v.once i,
          v.waiting i,
          v.waiting id there,
          answers_to-append i id args t.answers,
          same_answers i id t.answers,
        );
        begun = λ i h. ground (
          arith,
          h,
          there,
          v.waiting id there,
          v.begun i h,
          answers_to-append i id args t.answers,
        );
      } in
      simp there kept
  | inr gone ↦ simp gone v
]

step-Consistent :
    (t : Acks) (x : Step) → t.next_ack_id + 1 < two_63 → Consistent t → Consistent (step t x)
unfolding step
step-Consistent t Step.begins small v = begin_ack-Consistent t small v
step-Consistent t (Step.gives_up id) small v = give_up-Consistent t id v
step-Consistent t (Step.resolves id args) small v = resolve_ack-Consistent t id args v

step_next :
    (t : Acks) (x : Step) → t.next_ack_id + 1 < two_63 → (step t x).next_ack_id ≤ t.next_ack_id + 1
unfolding step begin_ack give_up resolve_ack
step_next t Step.begins small = ground (arith, small)
step_next t (Step.gives_up id) small = omega arith
step_next t (Step.resolves id args) small = ground arith

-- Below 2 ^ 63 steps, after any steps from a consistent table: a call that still waits was begun and
-- has no answer, no call has two answers, and only calls that were begun have one.
pub run-Consistent :
    (t : Acks) (xs : List Step)
    → t.next_ack_id + length xs < two_63
    → Consistent t
    → Consistent (run t xs)
unfolding run
run-Consistent t [] small v = v
run-Consistent t (x ∷ xs) small v =
    let room : t.next_ack_id + 1 < two_63 = omega (arith, small) in
    run-Consistent (step t x) xs (omega (arith, small, step_next t x room))
      (step-Consistent t x room v)
