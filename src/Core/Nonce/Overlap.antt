-- ===== src/Core/Nonce/Overlap.antt =====
-- soulon-wallet/src/core/nonce.ts: calls of `reserve` that overlap.
use soulon_wallet.Prelude.{
  ℕ, zero, suc, ◌+◌, List, [], ◌∷◌, ◌++◌, replicate, none, some, ◌≡◌, ◌∙◌, sym, ap, refl, arith,
}
use mathlib.Core.List.{append_assoc}
use soulon_wallet.Core.Nonce.Serial.{nonces_from}
use soulon_wallet.Core.Nonce.{
  Manager, Event, reserve_called, reserve_answered, reserve_resumed, call_reserve, answer_reserve,
  resume_reserve, run,
}

-- The pending calls are answered by turns: in each turn the chain's answers come for some of them,
-- all with the sequence `s`, and then those calls run on. A list has the number of calls of each
-- turn.
abbrev pub answers : ℕ → List ℕ → List Event
answers s [] = []
answers s (j ∷ js) =
    replicate j (reserve_answered s) ++ (replicate j reserve_resumed ++ answers s js)

abbrev pub sum : List ℕ → ℕ
sum [] = 0
sum (j ∷ js) = j + sum js

-- Every turn hands out the numbers from `s` on, again; the newest first.
abbrev pub handed : ℕ → List ℕ → List ℕ
handed s [] = []
handed s (j ∷ js) = handed s js ++ nonces_from s j

run-append : (es fs : List Event) (m : Manager) → run (es ++ fs) m ≡ run fs (run es m)
unfolding run
run-append [] fs m = refl
run-append (e ∷ es) fs m = run-append es fs _

call_reserve-unknown :
    (m : Manager) → m.next_nonce ≡ none → call_reserve m ≡ record m { asking = m.asking + 1 }
unfolding call_reserve
call_reserve-unknown m h = rw h

run-asking :
    (k : ℕ) (m : Manager)
    → m.next_nonce ≡ none
    → run (replicate k reserve_called) m ≡ record m { asking = m.asking + k }
unfolding run
run-asking zero m h = ground arith
run-asking (suc k) m h =
    ap (run (replicate k reserve_called)) (call_reserve-unknown m h)
    ∙ run-asking k (record m { asking = m.asking + 1 }) h
    ∙ ground arith

run-answered-reserved :
    (j s : ℕ) (m : Manager) → (run (replicate j (reserve_answered s)) m).reserved ≡ m.reserved
unfolding run answer_reserve
run-answered-reserved zero s m = refl
run-answered-reserved (suc j) s m = run-answered-reserved j s _

run-answered-next_nonce :
    (j s : ℕ) (m : Manager) → (run (replicate (suc j) (reserve_answered s)) m).next_nonce ≡ some s
unfolding run answer_reserve
run-answered-next_nonce zero s m = refl
run-answered-next_nonce (suc j) s m = run-answered-next_nonce j s (answer_reserve s m)

run-resumed :
    (j n : ℕ) (m : Manager)
    → m.next_nonce ≡ some n
    → (run (replicate j reserve_resumed) m).reserved ≡ nonces_from n j ++ m.reserved
unfolding run resume_reserve nonces_from
run-resumed zero n m h = refl
run-resumed (suc j) n m h =
    rw (h) (run-resumed j (n + 1) _ refl ∙ sym (append_assoc (nonces_from (n + 1) j) (n ∷ []) _))

run-turn :
    (j s : ℕ) (m : Manager)
    → (run (replicate j reserve_resumed) (run (replicate j (reserve_answered s)) m)).reserved
      ≡ nonces_from s j ++ m.reserved
unfolding nonces_from
run-turn zero s m = unfold run in refl
run-turn (suc j) s m =
    run-resumed (suc j) s _ (run-answered-next_nonce j s m)
    ∙ ap (λ l. nonces_from s (suc j) ++ l) (run-answered-reserved (suc j) s m)

run-answers :
    (js : List ℕ) (s : ℕ) (m : Manager)
    → (run (answers s js) m).reserved ≡ handed s js ++ m.reserved
run-answers [] s m = unfold run in refl
run-answers (j ∷ js) s m =
    let first = replicate j (reserve_answered s) in
    let then_on = replicate j reserve_resumed in
    ap (λ v. v.reserved)
      (run-append first (then_on ++ answers s js) m
        ∙ run-append then_on (answers s js) (run first m))
    ∙ run-answers js s (run then_on (run first m))
    ∙ ap (λ l. handed s js ++ l) (run-turn j s m)
    ∙ sym (append_assoc (handed s js) (nonces_from s j) m.reserved)

-- Calls of `reserve` are made while the manager does not know its next nonce; then the chain answers
-- them with the same sequence `s`, in turns. The calls that are answered in one turn, before any of
-- them has run on, are given consecutive nonces from `s` on, but every further turn starts at `s`
-- again: two calls whose answers come in different turns can be given the same nonce, and `k` calls
-- that are answered one by one are all given `s`.
pub run-overlapping :
    (js : List ℕ) (s : ℕ) (m : Manager)
    → m.next_nonce ≡ none
    → (run (replicate (sum js) reserve_called ++ answers s js) m).reserved
      ≡ handed s js ++ m.reserved
run-overlapping js s m h =
    ap (λ v. v.reserved) (run-append (replicate (sum js) reserve_called) (answers s js) m)
    ∙ run-answers js s (run (replicate (sum js) reserve_called) m)
    ∙ ap (λ v. handed s js ++ v.reserved) (run-asking (sum js) m h)
