-- ===== src/Budget/Heap/Laws.antt =====
-- src/budget.rs: the laws of `AllocationLedger` and of the sizes of `heap_size`.
use tsumugi.Base.{
  ℕ, ◌+◌, ◌≤◌, ◌<◌, ◌≡◌, ◌⊎◌, inl, inr, ok, err, arith, u64_max, leb, if◌then◌else◌, dec_le, max,
}
use tsumugi.Budget.Types.{ControlStop, ExecutionPhase, InternalFailure}
use tsumugi.Budget.Heap.{AllocationLedger, allocate_id, charge, release, heap_exceeded, dict_body}

-- Live bytes are within the limit, and the peak has seen them.
pub record IsBounded (h : AllocationLedger) : Type 0 where
  pub live : h.live_bytes ≤ h.limit
  pub peak : h.live_bytes ≤ h.peak_bytes

-- With a 64-bit limit, a charge of live bytes either fits, and is then added with the peak
-- following, or does not fit, and then leaves the heap ledger as it was and reports what was
-- asked, or the largest 64-bit number where the sum leaves the machine word.
pub charge-exact :
    (n : ℕ) (p : ExecutionPhase) (h : AllocationLedger)
    → h.limit ≤ u64_max
    → ((h.live_bytes + n ≤ h.limit)
        × (charge n p h ≡ (
          ok tt,
          record h {
            live_bytes = h.live_bytes + n;
            peak_bytes = max h.peak_bytes (h.live_bytes + n);
          },
        )))
      ⊎ ((h.limit < h.live_bytes + n)
          × (charge n p h ≡ (
            err (heap_exceeded h (if leb (h.live_bytes + n) u64_max then n else u64_max) p),
            h,
          )))
unfolding charge
charge-exact n p h word = elim (dec_le (h.live_bytes + n) h.limit) [
  | yes le ↦ inl (le, ground arith)
  | no gt ↦ inr (omega arith, ground arith)
]

pub charge-IsBounded :
    (n : ℕ) (p : ExecutionPhase) (h : AllocationLedger) → IsBounded h → IsBounded (charge n p h).1
unfolding charge
charge-IsBounded n p h b = ground arith

pub charge-limit :
    (n : ℕ) (p : ExecutionPhase) (h : AllocationLedger) → (charge n p h).1.limit ≡ h.limit
unfolding charge
charge-limit n p h = ground arith

-- Releasing what was just charged gives the live bytes back, and the peak keeps having seen both
-- the old peak and the charged total.
pub release-charge :
    (n : ℕ) (p : ExecutionPhase) (h : AllocationLedger)
    → (charge n p h).0 ≡ ok tt
    → ((release n (charge n p h).1).live_bytes ≡ h.live_bytes)
      × (h.peak_bytes ≤ (release n (charge n p h).1).peak_bytes)
      × (h.live_bytes + n ≤ (release n (charge n p h).1).peak_bytes)
unfolding charge release
release-charge n p h e = ground arith

-- Allocation ids are handed out in order while the next one is below the largest 64-bit number; at
-- that number the request fails, the ledger stays as it was, and no id wraps around.
pub allocate_id-fresh :
    (h : AllocationLedger)
    → h.next_id ≤ u64_max
    → ((h.next_id < u64_max)
        × (allocate_id h ≡ (ok h.next_id, record h { next_id = h.next_id + 1 })))
      ⊎ ((h.next_id ≡ u64_max)
          × (allocate_id h
              ≡ (err (ControlStop.internal_failure InternalFailure.allocation_id_exhausted), h)))
unfolding allocate_id
allocate_id-fresh h word = ground arith

-- The size of a collection grows with it, also where the sum saturates.
pub dict_body_mono : (n m a b : ℕ) → n ≤ m → a ≤ b → dict_body n a ≤ dict_body m b
unfolding dict_body
dict_body_mono n m a b h k = omega arith
