-- ===== src/Nwc/Request/Pay/OneTime.antt =====
-- A single use connection asks at most once in a request, for at most its amount; after a payment its
-- profile is gone, unless it is the one of index 0.
use mutiny_node.Prelude.{
  ℕ, ◌*◌, ◌%◌, ◌≡◌, ◌≢◌, refl, inl, inr, Bool, true, false, not, List, [], ◌∷◌, ◌++◌, Option, none,
  some, arith, leb, if◌then◌else◌, retain, find, unwrap_or, Bool-cases, nat_eq,
}
use mutiny_node.Prelude.Text.{Text}
use mutiny_node.Error.{payment_timeout}
use mutiny_node.Exec.{Result, ok, err, Result-cases}
use mutiny_node.Encrypt.{Crypto}
use mutiny_node.Storage.Values.{Json, Serde}
use mutiny_node.Storage.{Env}
use mutiny_node.Nwc.Invoice.{Bolt11, Bolt11Invoice}
use mutiny_node.Nwc.Budget.{Calendar, u64_mod}
use mutiny_node.Nwc.Profile.{SingleUseSpendingConditions, Profile, NostrWalletConnect}
use mutiny_node.Nwc.Manager.{Manager, PayCall, profiles_of, has_index}
use mutiny_node.Storage.Data.{IsKeyed}
use mutiny_node.Nwc.Manager.Profiles.{IsStored, save_profiles-IsStored}
use mutiny_node.Nwc.Manager.Ops.{
  save_nwc_profile, delete_nwc_profile, disable_mutiny_plus_profile, save_profiles,
}
use mutiny_node.Nwc.Node.{InvoiceHandler, HtlcStatus, failed, pay}
use mutiny_node.Nwc.Pending.{PendingNwcInvoice}
use mutiny_node.Nwc.Request.{
  Response, ResponseEvent, ResponseResult, Event, Display, Session, calls,
}
use mutiny_node.Nwc.Request.Pay.{pay_nwc_invoice, payment_label}
use mutiny_node.Nwc.Request.Pay.Budgeted.{queue_for_approval, save_self}
use mutiny_node.Nwc.Request.Pay.SingleUse.{
  previous_status, single_use_outcome, pay_single_use, single_use_content, flush, handle_single_use,
}
use mutiny_node.Nwc.Request.Pay.Spending.{queue_for_approval-calls}

-- No profile of the index is left.
find-retain-not :
    (i : ℕ) (l : List NostrWalletConnect)
    → find (has_index i) (retain (λ x. not (has_index i x)) l) ≡ none
find-retain-not i [] = refl
find-retain-not i (n ∷ ns) = ground (arith, find-retain-not i ns)

abbrev pub within_amount : ⦃b : Bolt11⦄ → Bolt11Invoice → SingleUseSpendingConditions → Bool
within_amount ⦃b⦄ invoice su =
    leb (unwrap_or (b.amount_milli_satoshis invoice) 0) (su.amount_sats * 1_000 % u64_mod)

-- A status of the previous attempt that lets another one be made.
abbrev pub may_retry : Option HtlcStatus → Bool
may_retry none = true
may_retry (some failed) = true
may_retry (some _) = false

module _ {V : Type 0} ⦃c : Crypto⦄ ⦃j : Json V⦄ ⦃env : Env⦄ ⦃b : Bolt11⦄ ⦃cal : Calendar⦄
    ⦃node : InvoiceHandler⦄ ⦃d : Display⦄ ⦃profiles : Serde V (List Profile)⦄
    ⦃stored : Serde V (List PendingNwcInvoice)⦄ where
  pub flush-calls : (s : Session V) → calls (flush s).1 ≡ calls s
  unfolding flush delete_nwc_profile disable_mutiny_plus_profile save_profiles save_self
      save_nwc_profile
  flush-calls s = ground arith

  single_use_outcome-calls :
      (event : Event) (id : Option Text) (invoice : Bolt11Invoice)
      (su : SingleUseSpendingConditions) (r : Result Response) (s : Session V)
      → calls (single_use_outcome event id invoice su r s).1 ≡ calls s
  unfolding single_use_outcome
  single_use_outcome-calls event id invoice su (ok resp) s = refl
  single_use_outcome-calls event id invoice su (err payment_timeout) s = refl
  single_use_outcome-calls event id invoice su (err _) s =
      ground (arith, queue_for_approval-calls event invoice id s)

  -- The one call that may be made.
  abbrev pub single_call : Bolt11Invoice → Session V → PayCall V
  single_call invoice s = record {
    invoice = invoice;
    labels = payment_label s.self.profile ∷ [];
    profiles = profiles_of s.manager.nwc;
    before = s.manager.world;
  }

  pay_single_use-calls :
      (event : Event) (id : Option Text) (invoice : Bolt11Invoice)
      (su : SingleUseSpendingConditions) (s : Session V)
      → calls (pay_single_use event id invoice su s).1
        ≡ (if within_amount invoice su then calls s ++ (single_call invoice s ∷ []) else calls s)
  unfolding pay_single_use pay_nwc_invoice pay
  pay_single_use-calls event id invoice su s =
      let (r, n) = pay_nwc_invoice s.self invoice s.manager in
      ground (arith, single_use_outcome-calls event id invoice su r (record s { manager = n }))

  single_use_content-calls :
      (event : Event) (id : Option Text) (invoice : Bolt11Invoice)
      (su : SingleUseSpendingConditions) (st : Option HtlcStatus) (s : Session V)
      → calls (single_use_content event id invoice su st s).1 ≡ (
          if may_retry st
          then (if within_amount invoice su
              then calls s ++ (single_call invoice s ∷ [])
              else calls s)
          else calls s)
  unfolding single_use_content
  single_use_content-calls event id invoice su none s = pay_single_use-calls event id invoice su s
  single_use_content-calls event id invoice su (some failed) s =
      pay_single_use-calls event id invoice su s
  single_use_content-calls event id invoice su (some _) s = refl

  previous_status-state :
      (su : SingleUseSpendingConditions) (s : Session V) → (previous_status su s).1 ≡ s
  unfolding previous_status
  previous_status-state su s = ground arith

  -- Once the status of the earlier attempt is read, a request against a single use asks the node for
  -- the payment of its invoice, once, if that attempt does not stand against it and the amount is
  -- within that of the conditions. Otherwise it asks for no payment.
  pub handle_single_use-calls :
      (event : Event) (id : Option Text) (invoice : Bolt11Invoice)
      (su : SingleUseSpendingConditions) (s : Session V) (st : Option HtlcStatus)
      → (previous_status su s).0 ≡ ok st
      → calls (handle_single_use event id invoice su s).1 ≡ (
          if may_retry st
          then (if within_amount invoice su
              then calls s ++ (single_call invoice s ∷ [])
              else calls s)
          else calls s)
  unfolding handle_single_use
  handle_single_use-calls event id invoice su s st e =
      let s1 = (single_use_content event id invoice su st s).1 in
      ground (
        arith,
        previous_status-state su s,
        single_use_content-calls event id invoice su st s,
        flush-calls s1,
      )

  delete_nwc_profile-find :
      (i : ℕ) (m : Manager V) → i ≢ 0 → find (has_index i) (delete_nwc_profile i m).1.nwc ≡ none
  unfolding delete_nwc_profile save_profiles
  delete_nwc_profile-find i m h = ground (arith, find-retain-not i m.nwc)

  delete_nwc_profile-IsStored :
      (i : ℕ) (m : Manager V) {m' : Manager V}
      → i ≢ 0
      → IsKeyed m.world.password m.world.cipher
      → delete_nwc_profile i m ≡ (ok tt, m')
      → IsStored m'
  unfolding delete_nwc_profile
  delete_nwc_profile-IsStored i m {m'} h k e =
      save_profiles-IsStored (record m { nwc = retain (λ x. not (has_index i x)) m.nwc }) {m' = m'}
        k (ground arith)

  -- A response with a result has marked the profile for deletion.
  single_use_outcome_marks :
      (event : Event) (id : Option Text) (invoice : Bolt11Invoice)
      (su : SingleUseSpendingConditions) (r : Result Response) (s : Session V) {resp : Response}
      {s1 : Session V} {paid : ResponseResult}
      → single_use_outcome event id invoice su r s ≡ (ok resp, s1)
      → resp.result ≡ some paid
      → (s1.needs_delete ≡ true)
        × (s1.self.profile.index ≡ s.self.profile.index)
        × (s1.manager.world ≡ s.manager.world)
  unfolding single_use_outcome
  single_use_outcome_marks event id invoice su (ok resp) s e p = ground arith
  single_use_outcome_marks event id invoice su (err payment_timeout) s e p = absurd (ground arith)
  single_use_outcome_marks event id invoice su (err _) s e p =
      elim (Result-cases (queue_for_approval event invoice id s).0) [
        | inl (_, q) ↦ absurd (ground arith)
        | inr (_, q) ↦ absurd (ground arith)
      ]

  pay_single_use_marks :
      (event : Event) (id : Option Text) (invoice : Bolt11Invoice)
      (su : SingleUseSpendingConditions) (s : Session V) {resp : Response} {s1 : Session V}
      {paid : ResponseResult}
      → pay_single_use event id invoice su s ≡ (ok resp, s1)
      → resp.result ≡ some paid
      → (s1.needs_delete ≡ true)
        × (s1.self.profile.index ≡ s.self.profile.index)
        × (s1.manager.world ≡ s.manager.world)
  unfolding pay_single_use pay_nwc_invoice pay
  pay_single_use_marks event id invoice su s e p =
      let (r, n) = pay_nwc_invoice s.self invoice s.manager in
      elim (Bool-cases (within_amount invoice su)) [
        | inl w ↦
            single_use_outcome_marks event id invoice su r (record s { manager = n }) (rw w at e) p
        | inr w ↦ absurd (ground arith)
      ]

  single_use_content_marks :
      (event : Event) (id : Option Text) (invoice : Bolt11Invoice)
      (su : SingleUseSpendingConditions) (st : Option HtlcStatus) (s : Session V) {resp : Response}
      {s1 : Session V} {paid : ResponseResult}
      → single_use_content event id invoice su st s ≡ (ok resp, s1)
      → resp.result ≡ some paid
      → (s1.needs_delete ≡ true)
        × (s1.self.profile.index ≡ s.self.profile.index)
        × (s1.manager.world ≡ s.manager.world)
  unfolding single_use_content
  single_use_content_marks event id invoice su none s e p =
      pay_single_use_marks event id invoice su s e p
  single_use_content_marks event id invoice su (some failed) s e p =
      pay_single_use_marks event id invoice su s e p
  single_use_content_marks event id invoice su (some _) s e p = absurd (ground arith)

  -- If the cipher is that of the password and a request against a single use of a profile other than the
  -- one of index 0 ends with a response that holds a result, no profile of that index is left, and the
  -- list without it is the one that is stored.
  pub handle_single_use_deletes :
      (event : Event) (id : Option Text) (invoice : Bolt11Invoice)
      (su : SingleUseSpendingConditions) (s : Session V) {response : ResponseEvent} {s' : Session V}
      {paid : ResponseResult}
      → IsKeyed s.manager.world.password s.manager.world.cipher
      → s.self.profile.index ≢ 0
      → handle_single_use event id invoice su s ≡ (ok (some response), s')
      → response.content.result ≡ some paid
      → (find (has_index s.self.profile.index) s'.manager.nwc ≡ none) × IsStored s'.manager
  unfolding handle_single_use flush
  handle_single_use_deletes event id invoice su s {response} {s'} {paid} k h e p =
      elim (Result-cases (previous_status su s).0) [
        | inr (_, q) ↦ absurd (ground arith)
        | inl (st, q) ↦
            let state = previous_status-state su s in
            let s1 = (single_use_content event id invoice su st s).1 in
            elim (Result-cases (single_use_content event id invoice su st s).0) [
              | inr (_, f) ↦ absurd (ground arith)
              | inl (resp, f) ↦ elim (Result-cases (flush s1).0) [
                | inr (_, g) ↦ absurd (ground arith)
                | inl (_, g) ↦
                    let result : resp.result ≡ some paid = ground arith in
                    let marks =
                      single_use_content_marks event id invoice su st s {resp = resp} {s1 = s1}
                        (ground arith) result in
                    let i = s.self.profile.index in
                    let keyed : IsKeyed s1.manager.world.password s1.manager.world.cipher =
                      rw marks.2 k in
                    let deleted : delete_nwc_profile i s1.manager ≡ (ok tt, s'.manager) =
                      ground arith in
                    (
                      ground (arith, delete_nwc_profile-find i s1.manager h),
                      delete_nwc_profile-IsStored i s1.manager {m' = s'.manager} h keyed deleted,
                    )
              ]
            ]
      ]
