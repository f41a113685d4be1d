-- ===== src/Federation/Outcome/Ends.antt =====
-- When the wait for a payment ends, and what it then knows.
use mutiny_node.Prelude.{
  ◌≡◌, ◌≢◌, refl, Bool, true, false, ◌||◌, List, [], ◌∷◌, none, some, inl, inr, arith, Bool-cases,
  is_some,
}
use mutiny_node.Nwc.Node.{HtlcStatus, MutinyInvoice, succeeded}
use mutiny_node.Federation.{LnPayState, ln_status, process_pay_state_ln}
use mutiny_node.Federation.Outcome.{
  Event, streamed, elapsed, update_stream, is_final, stream_loop, process_ln_outcome,
}

-- The events that end the wait: a final update, the end of a given timeout, or the `stop` flag that is
-- seen where no timeout is given. The end of the stream is not among them.
abbrev pub ends_wait : {U : Type 0} → (U → HtlcStatus) → Bool → Event U → Bool
ends_wait into has_timeout (streamed none) = false
ends_wait into has_timeout (streamed (some update)) = is_final (into update)
ends_wait into true (elapsed stop) = true
ends_wait into false (elapsed stop) = stop

abbrev pub any {ℓ} : {A : Type ℓ} → (A → Bool) → List A → Bool
any p [] = false
any p (x ∷ xs) = p x || any p xs

module _ {U : Type 0} (into : U → HtlcStatus) (process : U → MutinyInvoice → MutinyInvoice) where
  stream_loop_ends :
      (has_timeout : Bool) (events : List (Event U)) (invoice : MutinyInvoice)
      → ((u : U) (i : MutinyInvoice) → (process u i).status ≡ into u)
      → is_some (stream_loop into process has_timeout events invoice)
        ≡ any (ends_wait into has_timeout) events
  unfolding stream_loop
  stream_loop_ends has_timeout [] invoice sets = refl
  stream_loop_ends has_timeout (streamed none ∷ events) invoice sets =
      stream_loop_ends has_timeout events invoice sets
  stream_loop_ends has_timeout (streamed (some update) ∷ events) invoice sets = ground (
    arith,
    sets update invoice,
    stream_loop_ends has_timeout events (process update invoice) sets,
  )
  stream_loop_ends true (elapsed stop ∷ events) invoice sets = refl
  stream_loop_ends false (elapsed true ∷ events) invoice sets = refl
  stream_loop_ends false (elapsed false ∷ events) invoice sets =
      stream_loop_ends false events invoice sets

  stream_loop_kept :
      (P : MutinyInvoice → Type 0) (has_timeout : Bool) (events : List (Event U))
      (invoice : MutinyInvoice) {end : MutinyInvoice}
      → ((u : U) (i : MutinyInvoice) → P (process u i))
      → P invoice
      → stream_loop into process has_timeout events invoice ≡ some end
      → P end
  unfolding stream_loop
  stream_loop_kept P has_timeout [] invoice {end} keep p h = cc
  stream_loop_kept P has_timeout (streamed none ∷ events) invoice {end} keep p h =
      stream_loop_kept P has_timeout events invoice {end = end} keep p h
  stream_loop_kept P has_timeout (streamed (some update) ∷ events) invoice {end} keep p h =
      elim (Bool-cases (is_final (process update invoice).status)) [
        | inl q ↦
            let e : process update invoice ≡ end = ground arith in rw (← e) (keep update invoice)
        | inr q ↦
            stream_loop_kept P has_timeout events (process update invoice) {end = end} keep
              (keep update invoice) (ground arith)
      ]
  stream_loop_kept P true (elapsed stop ∷ events) invoice {end} keep p h =
      let e : invoice ≡ end = cc in rw (← e) p
  stream_loop_kept P false (elapsed true ∷ events) invoice {end} keep p h =
      let e : invoice ≡ end = cc in rw (← e) p
  stream_loop_kept P false (elapsed false ∷ events) invoice {end} keep p h =
      stream_loop_kept P false events invoice {end = end} keep p h

-- The wait for the updates of a lightning payment is over exactly if among the events is a final
-- update, the end of the timeout where one is given, or else a `stop` flag that was set when a sleep
-- ended.
pub process_ln_outcome_ends :
    (has_timeout : Bool) (events : List (Event LnPayState)) (invoice : MutinyInvoice)
    → is_some (
        process_ln_outcome ln_status process_pay_state_ln has_timeout
          (update_stream events)
          invoice)
      ≡ any (ends_wait ln_status has_timeout) events
unfolding process_ln_outcome
process_ln_outcome_ends has_timeout events invoice =
    stream_loop_ends ln_status process_pay_state_ln has_timeout events invoice (λ u i. refl)

-- A payment that has succeeded by then is known with its preimage.
abbrev pub IsProved : MutinyInvoice → Type 0
IsProved i = i.status ≡ succeeded → i.preimage ≢ none

process_pay_state_ln-IsProved :
    (u : LnPayState) (i : MutinyInvoice) → IsProved (process_pay_state_ln u i)
process_pay_state_ln-IsProved (LnPayState.success p) i h q = cc
process_pay_state_ln-IsProved u i h q = cc

-- If a payment that has succeeded has its preimage at the start, it has one at the end of the wait for
-- its updates.
pub process_ln_outcome-IsProved :
    (has_timeout : Bool) (events : List (Event LnPayState)) (invoice : MutinyInvoice)
    {end : MutinyInvoice}
    → IsProved invoice
    → process_ln_outcome ln_status process_pay_state_ln has_timeout (update_stream events) invoice
      ≡ some end
    → IsProved end
unfolding process_ln_outcome
process_ln_outcome-IsProved has_timeout events invoice {end} p h =
    stream_loop_kept ln_status process_pay_state_ln IsProved has_timeout events invoice {end = end}
      process_pay_state_ln-IsProved p h
