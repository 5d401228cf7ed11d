-- ===== src/PageFault/Supply.antt =====
-- The part of kernel/memory/page_fault.c that gives the faulting page a frame.
use kernel_v.Base.{ℕ, ◌^◌, ◌<◌, ◌≡◌, refl, subst, ap, ◌∙◌, arith, ◌==◌, List, true, false}
use kernel_v.Kernel.{Kernel}
use kernel_v.PageFault.{resumes, stops, with_frame, supply, of_outcome}
use kernel_v.Panik.{Diag, Outcome, returns, halts, normal, panik}
use kernel_v.Panik.Calls.{Ends, final, panik-Ends}
use kernel_v.Paging.Demand.{Enough, Demanded, demand_page}
use kernel_v.Paging.Frames.{pmm_alloc_frame-IsSafe}
use kernel_v.Paging.Safe.{IsSafe}
use kernel_v.Paging.Total.{Stopped}
use kernel_v.Pmm.{pmm_alloc_frame}
use kernel_v.Pmm.Alloc.{pmm_alloc_frame-null}
use kernel_v.Printk.Format.{Arg}

pub with_frame-Demanded :
    (fmt : List ℕ) (args : List Arg) (v : ℕ) (k : Kernel)
    → IsSafe k
    → v < 2 ^ 32
    → Enough v k
    → (k' : Kernel) × (with_frame fmt args v (pmm_alloc_frame k) ≡ resumes k') × Demanded v k k'
unfolding with_frame of_outcome
with_frame-Demanded fmt args v k s hv enough =
    let demand =
      demand_page v k (pmm_alloc_frame k).1.diag s ((pmm_alloc_frame-IsSafe k s).mode) hv enough in
    let some_frame : ((pmm_alloc_frame k).0 == 0) ≡ false = ground (arith, demand.0) in
    (demand.1.0, rw some_frame (ap of_outcome demand.1.1), demand.1.2)

supply-stops :
    (o : Outcome Diag) (d : Diag) (v frame : ℕ) (k : Kernel)
    → Ends normal d o
    → (final o).panik_state.panik_called ≡ 1
    → (k' : Kernel) × (supply o v frame k ≡ stops k') × Stopped k k'
unfolding supply
supply-stops (halts e) d v frame k off called =
    (record k { diag = e }, refl, record { ram = refl; interrupts = off; panik_called = called })
supply-stops (returns e) d v frame k off called = absurd off

-- With no frame left the machine stops.
pub with_frame-null :
    (fmt : List ℕ) (args : List Arg) (v : ℕ) (k : Kernel)
    → IsSafe k
    → (pmm_alloc_frame k).0 ≡ 0
    → (k' : Kernel) × (with_frame fmt args v (pmm_alloc_frame k) ≡ stops k') × Stopped k k'
unfolding with_frame
with_frame-null fmt args v k s null =
    let e = pmm_alloc_frame-null k s.few null in
    let d : Diag = (pmm_alloc_frame k).1.diag in
    let ends = panik-Ends fmt args d in
    let stop =
      supply-stops (panik fmt args d) d v (pmm_alloc_frame k).0 (pmm_alloc_frame k).1
        (subst (λ m. Ends m d (panik fmt args d)) (e.mode ∙ s.mode) ends.0) ends.1 in
    let no_frame : ((pmm_alloc_frame k).0 == 0) ≡ true = ground (arith, null) in
    (
      stop.0,
      rw no_frame (stop.1),
      record {
        ram = stop.2.ram ∙ e.ram;
        interrupts = stop.2.interrupts;
        panik_called = stop.2.panik_called;
      },
    )
