-- ===== src/Sched/Timer/Laws.antt =====
-- A timer interrupt returns, and leaves each thread with one CPU.

use os_rust.Shared.{
  ℕ, ◌+◌, ◌-◌, ◌^◌, ◌≤◌, ◌%◌, ◌≡◌, ◌≢◌, refl, List, Bool, true, false, Option, none, some, ok, ◌==◌,
  Bool-cases, inl, inr, arith, length, get_elem?-eq-get_or, get_or, leb, ap, ==_iff, get_elem?,
}
use os_rust.Memory.Addr.{AddrApi}
use os_rust.Arch.Machine.{Build}
use os_rust.Arch.Lapic.{lapic_phys_addr}
use os_rust.Arch.Lapic.Timer.{HasLapic, Rearmed, rearm-Rearmed}
use os_rust.Arch.Cpu.{CpuData, get_cpu_tls}
use os_rust.Sched.Balance.{Store}
use os_rust.Sched.Balance.Even.{do_load_balance-Even}
use os_rust.Sched.Timer.{
  Pages, set_queue, get_random_online_cpu, balance_with, maybe_load_balance, reschedule,
  timer_handler,
}
use os_rust.Sched.Timer.Owners.{AreSound, switch-IsSound}
use os_rust.Sched.Timer.Sharing.{shared, here-IsSound, other-IsSound, third-IsSound}

balance_with-AreSound :
    {used live : ℕ → Bool} {owner : ℕ → ℕ} (pages : Pages) (store : Store) (here other : ℕ)
    → used here ≡ true
    → used other ≡ true
    → AreSound used live owner pages
    → (pages' : Pages) × (store' : Store) × (owner' : ℕ → ℕ) × (balance_with pages store here other
        ≡ ok (pages', store'))
      × AreSound used live owner' pages'
unfolding balance_with set_queue
balance_with-AreSound {used} {live} {owner} pages store here other uh uo s =
    elim (Bool-cases ((pages here).cpu_id == (pages other).cpu_id)) [
      | inl e ↦ (pages, store, owner, rw e refl, s)
      | inr e ↦
          let a = s here uh in
          let b = s other uo in
          let (qa, qb, store', run, v) =
            do_load_balance-Even (pages here).ready_queue (pages other).ready_queue a.items b.items
              store (pages here).cpu_id (pages other).cpu_id a.queue b.queue in
          let cpu = record (pages here) { ready_queue = qa } in
          let other_cpu = record (pages other) { ready_queue = qb } in
          let ne : here ≢ other = λ h. cc (
            e,
            (==_iff (pages here).cpu_id (pages other).cpu_id).1
                (ap (λ (n : ℕ). (pages n).cpu_id) h),
          ) in
          (
            set_queue (set_queue pages here cpu) other other_cpu,
            store',
            shared ne a b v,
            rw (e, run) refl,
            λ addr u. elim (Bool-cases (addr == other)) [
              | inl p ↦ rw (p, (==_iff addr other).0 p) (other-IsSound ne a b v)
              | inr p ↦ elim (Bool-cases (addr == here)) [
                | inl q ↦ rw (p, q, (==_iff addr here).0 q) (here-IsSound ne a b v)
                | inr q ↦
                    rw (p, q)
                      (third-IsSound ne a b v (pages addr) addr
                        (λ h. cc (q, (==_iff addr here).1 h)) (λ h. cc (p, (==_iff addr other).1 h))
                        (s addr u))
              ]
            ],
          )
    ]

-- The table's online entries name pages in use.
abbrev pub NamesPages : (ℕ → Bool) → List CpuData → Type 0
NamesPages used cpus =
    (i : ℕ) (e : CpuData) → get_elem? cpus i ≡ some e → e.online ≡ true → used e.tls ≡ true

abbrev IsPage : (ℕ → Bool) → Option ℕ → Type 0
IsPage used none = Unit
IsPage used (some addr) = used addr ≡ true

get_random_online_cpu_lem :
    {used : ℕ → Bool} (cpus : List CpuData) (random : ℕ)
    → 12 ≤ length cpus
    → NamesPages used cpus
    → (found : Option ℕ) × (get_random_online_cpu cpus random ≡ ok found) × IsPage used found
unfolding get_random_online_cpu get_cpu_tls
get_random_online_cpu_lem cpus random enough names =
    let i : ℕ = random % 2 ^ 32 % 12 in
    let inside : leb (length cpus) i ≡ false = ground arith in
    let empty : CpuData = record { online = false; tls = 0 } in
    let entry : CpuData = get_or cpus i empty in
    let at_entry = get_elem?-eq-get_or cpus i empty (omega arith) in
    elim (Bool-cases entry.online) [
      | inl on ↦ (some entry.tls, rw (inside, at_entry, on) refl, names i entry at_entry on)
      | inr off ↦ (none, rw (inside, at_entry, off) refl, tt)
    ]

maybe_load_balance-AreSound :
    {used live : ℕ → Bool} {owner : ℕ → ℕ} (cpus : List CpuData) (random : ℕ) (pages : Pages)
    (store : Store) (here : ℕ)
    → 12 ≤ length cpus
    → NamesPages used cpus
    → used here ≡ true
    → AreSound used live owner pages
    → (pages' : Pages) × (store' : Store) × (owner' : ℕ → ℕ) × (maybe_load_balance cpus random pages
          store here
        ≡ ok (pages', store'))
      × AreSound used live owner' pages'
unfolding maybe_load_balance
maybe_load_balance-AreSound {used} {live} {owner} cpus random pages store here enough names uh s =
    let (found, e, p) = get_random_online_cpu_lem cpus random enough names in go found e p
  where
    go :
        (found : Option ℕ)
        → get_random_online_cpu cpus random ≡ ok found
        → IsPage used found
        → (pages' : Pages) × (store' : Store) × (owner' : ℕ → ℕ) × (maybe_load_balance cpus random
              pages store here
            ≡ ok (pages', store'))
          × AreSound used live owner' pages'
    go none h p = (pages, store, owner, rw h refl, s)
    go (some other) h p =
        let (pages', store', owner', run, s') =
          balance_with-AreSound pages store here other uh p s in
        (pages', store', owner', rw (h, run) refl, s')

reschedule-AreSound :
    {used live : ℕ → Bool} {owner : ℕ → ℕ} (idle_addr : ℕ) (cpus : List CpuData) (random : ℕ)
    (pages : Pages) (store : Store) (here : ℕ)
    → 12 ≤ length cpus
    → NamesPages used cpus
    → used here ≡ true
    → AreSound used live owner pages
    → (pages' : Pages) × (store' : Store) × (owner' : ℕ → ℕ) × (reschedule idle_addr cpus random
          pages store here
        ≡ ok (pages', store'))
      × AreSound used live owner' pages'
unfolding reschedule set_queue
reschedule-AreSound {used} {live} {owner} idle_addr cpus random pages store here enough names uh s =
    let a = s here uh in
    let (cpu, e, t) =
      switch-IsSound idle_addr (pages here) here a.items a.queue a.distinct a.owned a.alive in
    let (pages', store', owner', run, s') =
      maybe_load_balance-AreSound {owner = owner} cpus random (set_queue pages here cpu) store here
        enough names uh
        (λ addr u. elim (Bool-cases (addr == here)) [
          | inl p ↦ rw (p, (==_iff addr here).0 p) t
          | inr p ↦ rw p (s addr u)
        ]) in
    (pages', store', owner', rw (e, run) refl, s')

-- Where each thread is with one CPU at most, the table has at least twelve CPUs, its online entries name
-- pages in use, and the direct map in the upper half reaches the local APIC, the handler of a timer
-- interrupt returns, whatever the random number: no queue overflows. After it each thread is again with
-- one CPU at most, and all of them are live; the interrupt is acknowledged, the timer's count starts
-- again, and no other register of the APIC has changed.
pub timer_handler-AreSound :
    {used live : ℕ → Bool} {owner : ℕ → ℕ} (x : AddrApi) (offset : ℕ) (b : Build) (idle_addr : ℕ)
    (cpus : List CpuData) (random : ℕ) (pages : Pages) (store : Store) (here : ℕ) (device : ℕ → ℕ)
    → 2 ^ 64 - 2 ^ 47 ≤ offset
    → HasLapic offset b
    → 12 ≤ length cpus
    → NamesPages used cpus
    → used here ≡ true
    → AreSound used live owner pages
    → (pages' : Pages) × (store' : Store) × (device' : ℕ → ℕ) × (owner' : ℕ → ℕ) × (timer_handler x
          offset b.apic_base idle_addr cpus random pages store here device
        ≡ ok (pages', store', device'))
      × AreSound used live owner' pages'
      × Rearmed device device' (lapic_phys_addr b.apic_base + offset)
unfolding timer_handler
timer_handler-AreSound {owner = owner} x offset b idle_addr cpus random pages store here device high
      apic enough names uh s =
    let (pages', store', owner', run, s') =
      reschedule-AreSound {owner = owner} idle_addr cpus random pages store here enough names uh
        s in
    let (device', armed, r) = rearm-Rearmed x offset b device high apic in
    (pages', store', device', owner', rw (run, armed) refl, s', r)
