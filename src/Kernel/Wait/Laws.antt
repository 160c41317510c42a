-- ===== src/Kernel/Wait/Laws.antt =====
-- What `ibwait` reports, and that a timeout ends it.
use linux_gpib.Prelude.{
  ℕ, ◌≡◌, ◌<◌, refl, sym, ap, ◌∙◌, bits, Bool, true, false, arith, ℤ, pos, is_neg, Option, some,
  List, [], ◌∷◌, ◌++◌, ◌==◌, has, has-mask, has-zero, Bool-cases, Option-cases, inl, inr,
}
use mathlib.Core.Path.{subst}
use linux_gpib.Uapi.Errno.{erestartsys}
use linux_gpib.Uapi.Status.{timo}
use linux_gpib.Kernel.Types.{Board, Interface, StatusQueue, Descriptor}
use linux_gpib.Kernel.Wait.{
  common_bits, WakeUp, WaitCmd, Waited, wait_status, wait_event, clear_reported, queue_of, ibwait,
}

common_bits-has :
    (x y k : ℕ) → k < 31 → has x k ≡ true → has y k ≡ true → (common_bits x y == 0) ≡ false
common_bits-has x y k h hx hy = elim (Bool-cases (common_bits x y == 0)) [
  | inr e ↦ e
  | inl e ↦
      let zero_bits : common_bits x y ≡ 0 = ground (arith, e) in
      let bit : has (common_bits x y) k ≡ true = ground (arith, has-mask 31 x y k) in
      absurd (ground (arith, bit, zero_bits, has-zero k))
]

abbrev pub AreLocked : {D : Type 0} → List (WakeUp D) → Type 0
AreLocked [] = Unit {0}
AreLocked (w ∷ later) = (w.lock_interrupted ≡ false) × AreLocked later

-- The statuses at these wake-ups have no bit of the mask.
abbrev pub AreMissed :
    {D : Type 0} → Interface D → Option StatusQueue → ℕ → List (WakeUp D) → Type 0
AreMissed interface status_queue wait_mask [] = Unit {0}
AreMissed interface status_queue wait_mask (w ∷ later) =
    ((common_bits wait_mask (wait_status interface status_queue w).0 == 0) ≡ true)
    × AreMissed interface status_queue wait_mask later

-- The wait ended at a wake-up of the list with its status, the first that has a bit of the mask.
pub record IsWoken {D : Type 0} (interface : Interface D) (status_queue : Option StatusQueue)
    (wake_ups : List (WakeUp D)) (wait_mask status : ℕ) : Type 0 where
  pub before : List (WakeUp D)
  pub at : WakeUp D
  pub after : List (WakeUp D)
  pub is_among : wake_ups ≡ before ++ at ∷ after
  pub missed : AreMissed interface status_queue wait_mask before
  pub same : status ≡ (wait_status interface status_queue at).0
  pub asked : (common_bits wait_mask status == 0) ≡ false
  pub timo_says : has status timo ≡ at.timed_out

module _ {D : Type 0} (interface : Interface D) (status_queue : Option StatusQueue) where
  wait_status-timo :
      (w : WakeUp D) → has (wait_status interface status_queue w).0 timo ≡ w.timed_out
  unfolding wait_status
  wait_status-timo w = simp bits

  later-IsWoken :
      (w : WakeUp D) (later : List (WakeUp D)) (wait_mask status : ℕ)
      → (common_bits wait_mask (wait_status interface status_queue w).0 == 0) ≡ true
      → IsWoken interface status_queue later wait_mask status
      → IsWoken interface status_queue (w ∷ later) wait_mask status
  later-IsWoken w later wait_mask status miss woken = record {
    before = w ∷ woken.before;
    at = woken.at;
    after = woken.after;
    is_among = ap (λ rest. w ∷ rest) woken.is_among;
    missed = (miss, woken.missed);
    same = woken.same;
    asked = woken.asked;
    timo_says = woken.timo_says;
  }

  abbrev the_waited : ℤ → ℕ → Board D → Waited D
  the_waited retval status board = record { retval = retval; status = status; board = board }

  wait_event-IsWoken :
      (wake_ups : List (WakeUp D)) (wait_mask status : ℕ) (r : Waited D)
      → AreLocked wake_ups
      → wait_event interface status_queue wake_ups wait_mask status ≡ some r
      → is_neg r.retval ≡ false
      → IsWoken interface status_queue wake_ups wait_mask r.status
  unfolding wait_event
  wait_event-IsWoken [] wait_mask status r h e ok = absurd cc
  wait_event-IsWoken (w ∷ later) wait_mask status r (locked, h) e ok =
      let (now, board) = wait_status interface status_queue w in
      let woken : Waited D = record { retval = pos 0; status = now; board = board } in
      let interrupted : some (the_waited erestartsys status board) ≡ some r → ⊥ = λ found.
        let same : the_waited erestartsys status board ≡ r = cc in
        let neg : is_neg erestartsys ≡ is_neg r.retval = ap (λ x. is_neg x.retval) same in
        absurd cc in
      elim (Bool-cases (common_bits wait_mask now == 0)) [
        | inr hit ↦
            let found = simp (locked, hit) at e in
            let same : woken ≡ r = cc in
            subst (λ x. IsWoken interface status_queue (w ∷ later) wait_mask x.status) same
              (record {
                before = [];
                at = w;
                after = later;
                is_among = refl;
                missed = tt;
                same = refl;
                asked = hit;
                timo_says = wait_status-timo w;
              })
        | inl miss ↦ elim (Bool-cases w.signal) [
          | inl signal ↦ absurd (interrupted (simp (locked, miss, signal) at e))
          | inr quiet ↦
              let rest = simp (locked, miss, quiet) at e in
              later-IsWoken w later wait_mask r.status miss
                (wait_event-IsWoken later wait_mask status r h rest ok)
        ]
      ]

  wait_event_timeout :
      (before after : List (WakeUp D)) (w : WakeUp D) (wait_mask status : ℕ)
      → has wait_mask timo ≡ true
      → w.timed_out ≡ true
      → (r : Waited D) × (wait_event interface status_queue (before ++ w ∷ after) wait_mask status
          ≡ some r)
  unfolding wait_event
  wait_event_timeout [] after w wait_mask status asked fired =
      let now = wait_status interface status_queue w in
      let says = wait_status-timo w ∙ fired in
      let hit = common_bits-has wait_mask now.0 timo (omega arith) asked says in
      elim (Bool-cases w.lock_interrupted) [
        | inl e ↦ (record { retval = pos 0; status = status; board = w.board }, simp e refl)
        | inr e ↦ (record { retval = pos 0; status = now.0; board = now.1 }, simp (e, hit) refl)
      ]
  wait_event_timeout (w0 ∷ before) after w wait_mask status asked fired =
      let (r, same) = wait_event_timeout before after w wait_mask status asked fired in
      let (now, board) = wait_status interface status_queue w0 in
      elim (Bool-cases w0.lock_interrupted) [
        | inl e ↦ (record { retval = pos 0; status = status; board = w0.board }, simp e refl)
        | inr e ↦ elim (Bool-cases (common_bits wait_mask now == 0)) [
          | inr hit ↦ (record { retval = pos 0; status = now; board = board }, simp (e, hit) refl)
          | inl miss ↦ elim (Bool-cases w0.signal) [
            | inl signal ↦ (
              record { retval = erestartsys; status = status; board = board },
              simp (e, miss, signal) refl,
            )
            | inr quiet ↦ (r, simp (e, miss, quiet) same)
          ]
        ]
      ]

  clear_reported-status :
      (relocked : Bool) (cmd : WaitCmd) (r : Waited D)
      → ((clear_reported interface status_queue relocked cmd r).status ≡ r.status)
        × (is_neg (clear_reported interface status_queue relocked cmd r).retval ≡ false
            → is_neg r.retval ≡ false)
  unfolding clear_reported
  clear_reported-status relocked cmd r = elim (Bool-cases (is_neg r.retval)) [
    | inl neg ↦ simp neg (refl, λ h. absurd cc)
    | inr ok ↦ elim (Bool-cases relocked) [
      | inr lost ↦ simp (ok, lost) (refl, λ h. refl)
      | inl kept ↦ simp (ok, kept) (ground arith)
    ]
  ]

module _ {D : Type 0} (interface : Interface D) where
  -- With a mask, and where no lock of the big mutex is interrupted, a wait that succeeds has slept
  -- until the first of the wake-ups whose status has a bit of the mask; this is the status that it
  -- reports, and its TIMO says whether the timer of the wait had fired by then.
  pub ibwait_reported :
      (wake_ups : List (WakeUp D)) (relocked : Bool) (cmd : WaitCmd) (desc : Descriptor)
      (board : Board D) (r : Waited D) (desc' : Descriptor)
      → (cmd.wait_mask == 0) ≡ false
      → AreLocked wake_ups
      → ibwait interface wake_ups relocked cmd desc board ≡ some (r, desc')
      → is_neg r.retval ≡ false
      → IsWoken interface (queue_of board desc) wake_ups cmd.wait_mask r.status
  unfolding ibwait
  ibwait_reported wake_ups relocked cmd desc board r desc' asked h e ok =
      let queue = queue_of board desc in
      elim (Option-cases (wait_event interface queue wake_ups cmd.wait_mask cmd.ibsta)) [
        | inl asleep ↦ (let nothing = simp (asked, asleep) at e in absurd cc)
        | inr (waited, same) ↦
            let ended = clear_reported interface queue relocked cmd waited in
            let found : some (ended, desc) ≡ some (r, desc') = simp (asked, same) at e in
            let last : ended ≡ r = cc in
            let (status, retval) = clear_reported-status interface queue relocked cmd waited in
            let fine = retval (ap (λ x. is_neg x.retval) last ∙ ok) in
            let woken =
              wait_event-IsWoken interface queue wake_ups cmd.wait_mask cmd.ibsta waited h same
                fine in
            subst (IsWoken interface queue wake_ups cmd.wait_mask)
              (sym status ∙ ap (λ x. x.status) last) woken
      ]

  -- With TIMO in the mask, a wait whose timer fires by some wake-up returns.
  pub ibwait_timeout :
      (before after : List (WakeUp D)) (w : WakeUp D) (relocked : Bool) (cmd : WaitCmd)
      (desc : Descriptor) (board : Board D)
      → has cmd.wait_mask timo ≡ true
      → w.timed_out ≡ true
      → (r : Waited D × Descriptor) × (ibwait interface
            (before ++ w ∷ after)
            relocked
            cmd
            desc
            board
          ≡ some r)
  unfolding ibwait
  ibwait_timeout before after w relocked cmd desc board asked fired =
      let queue = queue_of board desc in
      let (r, same) =
        wait_event_timeout interface queue before after w cmd.wait_mask cmd.ibsta asked fired in
      let masked : (cmd.wait_mask == 0) ≡ false = elim (Bool-cases (cmd.wait_mask == 0)) [
        | inr e ↦ e
        | inl e ↦
            let nothing : cmd.wait_mask ≡ 0 = ground (arith, e) in
            absurd (ground (arith, asked, nothing, has-zero timo))
      ] in
      ((clear_reported interface queue relocked cmd r, desc), simp (masked, same) refl)
