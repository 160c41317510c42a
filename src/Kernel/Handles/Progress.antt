-- ===== src/Kernel/Handles/Progress.antt =====
-- linux-gpib-kernel/drivers/gpib/common/gpib_os.c: the flag `io_in_progress` of the descriptor that
-- a handle names.
use linux_gpib.Prelude.{
  ℕ, zero, suc, ◌≡◌, refl, Bool, ℤ, pos, negsuc, Option, some, List, [], ◌∷◌, leb, set, Bool-cases,
  inl, inr,
}
use linux_gpib.Uapi.Status.{gpib_max_num_descriptors}
use linux_gpib.Kernel.Types.{FilePrivate, Descriptor}
use linux_gpib.Kernel.Handles.{slot, handle_to_descriptor, set_io_in_progress}

slot-set :
    (ds : List (Option Descriptor)) (i : ℕ) (d d' : Descriptor)
    → slot ds i ≡ some d
    → slot (set ds i (some d')) i ≡ some d'
slot-set [] i d d' e = absurd cc
slot-set (x ∷ ds) zero d d' e = refl
slot-set (x ∷ ds) (suc i) d d' e = slot-set ds i d d' e

-- The descriptor of a handle has the flag that was set, and is otherwise the same.
pub handle_to_descriptor-set_io_in_progress :
    (file : FilePrivate) (handle : ℤ) (v : Bool) (d : Descriptor)
    → handle_to_descriptor file handle ≡ some d
    → handle_to_descriptor (set_io_in_progress file handle v) handle
      ≡ some (record d { io_in_progress = v })
unfolding handle_to_descriptor set_io_in_progress
handle_to_descriptor-set_io_in_progress file (negsuc n) v d e = absurd cc
handle_to_descriptor-set_io_in_progress file (pos n) v d e =
    elim (Bool-cases (leb gpib_max_num_descriptors n)) [
      | inl large ↦ (let nothing = simp large at e in absurd cc)
      | inr small ↦
          let found : slot file.descriptors n ≡ some d = simp small at e in
          let d' = record d { io_in_progress = v } in
          simp (small, set_io_in_progress, found) (slot-set file.descriptors n d d' found)
    ]
