-- ===== src/Main/Interleavings/Atomic.antt =====
-- A packet is processed as if in one step.
use bismark_passive.Prelude.{
  ℕ, ◌≡◌, refl, sym, ◌∙◌, Bool, true, false, Option, none, some, List, ◌&&◌, ◌||◌, not, subst,
  arith, ap,
}
use bismark_passive.Prelude.Int.{ℤ}
use bismark_passive.Prelude.Printf.{◌>>=◌, >>=_some, Printf, Call}
use bismark_passive.Prelude.All.{OnSuccess, OnSuccess-some}
use bismark_passive.Main.{Build, Libraries, Daemon}
use bismark_passive.Main.Frames.{Extracted, get_flow_entry_for_packet}
use bismark_passive.Main.Packets.{
  PacketHeader, store_packet, parse_dns, parse_http, account, process_packet,
}
use bismark_passive.Main.Packets.Stages.{Readable}
use bismark_passive.Main.Signals.{Signal, sigalrm}
use bismark_passive.Main.Runs.{Run}
use bismark_passive.Main.Runs
use bismark_passive.Main.Interleavings.{
  Stage, waiting, entered, blocked, extracted, classified, stored, dns_parsed, http_parsed, Process,
  block_set, advance, step, Execution, loop_started, called, stepped, raised, handled,
}

abbrev pub IsOpen : Process → Type 0
IsOpen p = (s : Signal) → p.mask s ≡ false

abbrev pub IsBlocked : Process → Type 0
IsBlocked p = (s : Signal) → p.mask s ≡ true

-- A step that is the first of a chain leaves the rest of the chain to do.
first_of_chain :
    {A B C : Type 0} (P : C → Type 0) (o : Option A) (rest : A → Option B) (result : Option B)
    (reach : A → C)
    → (o >>= rest) ≡ result
    → ((a : A) → rest a ≡ result → P (reach a))
    → OnSuccess P (o >>= λ a. some (reach a))
first_of_chain P none rest result reach e h = tt
first_of_chain P (some a) rest result reach e h = h a e

block_all : (mask : Bool) (s : Signal) → (mask || block_set s) ≡ true
unfolding block_set
block_all mask s = ground arith

pub unblock_all : (mask : Bool) (s : Signal) → (mask && not (block_set s)) ≡ false
unfolding block_set
unblock_all mask s = ground arith

module _ (build : Build) (libs : Libraries) where
  -- What is left to do behind the flow table and behind the packet series.
  abbrev behind_flow : PacketHeader → List ℕ → Extracted → ℕ → Daemon → Option Daemon
  behind_flow header bytes x flow_id d =
      let added = store_packet build libs header flow_id d in
      parse_dns build libs bytes x added.1 added.0 >>= parse_http build libs bytes x flow_id

  abbrev behind_store : List ℕ → Extracted → ℕ → ℤ → Daemon → Option Daemon
  behind_store bytes x flow_id packet_id d =
      parse_dns build libs bytes x packet_id d >>= parse_http build libs bytes x flow_id

  -- A packet is under way whose processing, begun in the state `d₀`, ends as `rest` does.
  abbrev pub During : Daemon → PacketHeader → List ℕ → Option Daemon → Process → Type 0
  During d₀ header bytes rest p =
      Readable header bytes × (rest ≡ process_packet build libs header bytes d₀) × IsBlocked p

  -- The process stands for a state `d₀` between two packets.
  abbrev pub StandsFor : Daemon → Stage → Process → Type 0
  StandsFor d₀ waiting p = (p.daemon ≡ d₀) × IsOpen p
  StandsFor d₀ (entered header bytes) p = Readable header bytes × (p.daemon ≡ d₀) × IsOpen p
  StandsFor d₀ (blocked header bytes) p =
      During d₀ header bytes (process_packet build libs header bytes p.daemon) p
  StandsFor d₀ (extracted header bytes x) p =
      During d₀ header bytes (account build libs header bytes x p.daemon) p
  StandsFor d₀ (classified header bytes x flow_id) p =
      During d₀ header bytes (behind_flow header bytes x flow_id p.daemon) p
  StandsFor d₀ (stored header bytes x flow_id packet_id) p =
      During d₀ header bytes (behind_store bytes x flow_id packet_id p.daemon) p
  StandsFor d₀ (dns_parsed header bytes x flow_id) p =
      During d₀ header bytes (parse_http build libs bytes x flow_id p.daemon) p
  StandsFor d₀ (http_parsed header bytes) p = During d₀ header bytes (some p.daemon) p

module _ (build : Build) (libs : Libraries) {G F : Type 0} (gzprintf : Printf G)
    (fprintf : Printf F) where
  -- The state between two packets for which the process stands is one of a run.
  abbrev pub Backed : ℕ → List Call → ℕ → Process → Type 0
  Backed n names seconds p =
      (d₀ : Daemon) × Run build libs gzprintf fprintf n names seconds d₀
      × StandsFor build libs d₀ p.stage p

  module _ (n : ℕ) (names : List Call) (seconds : ℕ) where
    abbrev Goal : Process → Type 0
    Goal = Backed n names seconds

    advance-Backed :
        (stage : Stage) (p : Process) (succeeds : Bool) (d₀ : Daemon)
        → Run build libs gzprintf fprintf n names seconds d₀
        → StandsFor build libs d₀ stage p
        → OnSuccess Goal (advance build libs succeeds stage p)
    unfolding advance account process_packet
    advance-Backed waiting p succeeds d₀ run h = tt
    advance-Backed (entered header bytes) p false d₀ run h = tt
    advance-Backed (entered header bytes) p true d₀ run (readable, e, opened) = (
      d₀,
      run,
      (readable, ap (process_packet build libs header bytes) e, λ s. block_all (p.mask s) s),
    )
    advance-Backed (blocked header bytes) p succeeds d₀ run (readable, e, closed) =
        first_of_chain Goal
          (get_flow_entry_for_packet build bytes header.caplen header.len p.daemon)
          (λ r. account build libs header bytes r.1 r.0) _ _ e
          λ r e'. (d₀, run, (readable, e', closed))
    advance-Backed (extracted header bytes x) p succeeds d₀ run (readable, e, closed) =
        (d₀, run, (readable, e, closed))
    advance-Backed (classified header bytes x flow_id) p succeeds d₀ run (readable, e, closed) =
        (d₀, run, (readable, e, closed))
    advance-Backed (stored header bytes x flow_id packet_id) p succeeds d₀ run
          (readable, e, closed) =
        first_of_chain Goal (parse_dns build libs bytes x packet_id p.daemon)
          (parse_http build libs bytes x flow_id) _ _ e λ d e'. (d₀, run, (readable, e', closed))
    advance-Backed (dns_parsed header bytes x flow_id) p succeeds d₀ run (readable, e, closed) =
        first_of_chain Goal (parse_http build libs bytes x flow_id p.daemon) some _ _
          (>>=_some _ ∙ e) λ d e'. (d₀, run, (readable, e', closed))
    advance-Backed (http_parsed header bytes) p false d₀ run h = tt
    advance-Backed (http_parsed header bytes) p true d₀ run (readable, e, closed) = (
      p.daemon,
      Runs.packet n names seconds d₀ p.daemon header bytes run readable (sym e),
      (refl, λ s. unblock_all (p.mask s) s),
    )

  -- A process with a signal that is not blocked is between two packets, or has just been called.
  opened :
      (d₀ : Daemon) (stage : Stage) (p : Process) (s : Signal)
      → StandsFor build libs d₀ stage p
      → p.mask s ≡ false
      → p.daemon ≡ d₀
  opened d₀ waiting p s h m = h.0
  opened d₀ (entered header bytes) p s h m = h.1
  opened d₀ (blocked header bytes) p s h m = cc (h.2 s)
  opened d₀ (extracted header bytes x) p s h m = cc (h.2 s)
  opened d₀ (classified header bytes x flow_id) p s h m = cc (h.2 s)
  opened d₀ (stored header bytes x flow_id packet_id) p s h m = cc (h.2 s)
  opened d₀ (dns_parsed header bytes x flow_id) p s h m = cc (h.2 s)
  opened d₀ (http_parsed header bytes) p s h m = cc (h.2 s)

  -- The pending signals do not matter, nor does the state of a process that is not in a packet.
  with_pending :
      (d₀ : Daemon) (stage : Stage) (p : Process) (pending : Signal → Bool)
      → StandsFor build libs d₀ stage p
      → StandsFor build libs d₀ stage (record p { pending = pending })
  with_pending d₀ waiting p pending h = h
  with_pending d₀ (entered header bytes) p pending h = h
  with_pending d₀ (blocked header bytes) p pending h = h
  with_pending d₀ (extracted header bytes x) p pending h = h
  with_pending d₀ (classified header bytes x flow_id) p pending h = h
  with_pending d₀ (stored header bytes x flow_id packet_id) p pending h = h
  with_pending d₀ (dns_parsed header bytes x flow_id) p pending h = h
  with_pending d₀ (http_parsed header bytes) p pending h = h

  between :
      (d₀ d' : Daemon) (stage : Stage) (p : Process) (s : Signal) (pending : Signal → Bool)
      → StandsFor build libs d₀ stage p
      → p.mask s ≡ false
      → StandsFor build libs d' stage (record p { daemon = d'; pending = pending })
  between d₀ d' waiting p s pending h m = (refl, h.1)
  between d₀ d' (entered header bytes) p s pending h m = (h.0, refl, h.2)
  between d₀ d' (blocked header bytes) p s pending h m = cc (h.2 s)
  between d₀ d' (extracted header bytes x) p s pending h m = cc (h.2 s)
  between d₀ d' (classified header bytes x flow_id) p s pending h m = cc (h.2 s)
  between d₀ d' (stored header bytes x flow_id packet_id) p s pending h m = cc (h.2 s)
  between d₀ d' (dns_parsed header bytes x flow_id) p s pending h m = cc (h.2 s)
  between d₀ d' (http_parsed header bytes) p s pending h m = cc (h.2 s)

  pub Execution-Backed :
      (n : ℕ) (names : List Call) (seconds : ℕ) (p : Process)
      → Execution build libs gzprintf fprintf n names seconds p
      → Backed n names seconds p
  unfolding step
  Execution-Backed _ _ _ _ (loop_started inputs d e) =
      (d, Runs.started inputs d e, (refl, λ s. refl))
  Execution-Backed _ _ _ _ (called n names seconds p header bytes x idle readable) =
      let (d₀, run, h) = Execution-Backed n names seconds p x in
      let h' : StandsFor build libs d₀ waiting p =
        subst (λ stage. StandsFor build libs d₀ stage p) idle h in
      (d₀, run, (readable, h'.0, h'.1))
  Execution-Backed _ _ _ _ (stepped n names seconds p p' succeeds x e) =
      let (d₀, run, h) = Execution-Backed n names seconds p x in
      OnSuccess-some (Backed n names seconds) _ p'
        (advance-Backed n names seconds p.stage p succeeds d₀ run h) e
  Execution-Backed _ _ _ _ (raised n names seconds p s x) =
      let (d₀, run, h) = Execution-Backed n names seconds p x in
      (d₀, run, with_pending d₀ p.stage p _ h)
  Execution-Backed _ _ _ _ (handled n names seconds seconds' p d' system written x due m e) =
      let (d₀, run, h) = Execution-Backed n names seconds p x in
      let same = opened d₀ p.stage p sigalrm h m in
      (
        d',
        Runs.alarm n names seconds seconds' d₀ d' system written run (rw (← same) e),
        between d₀ d' p.stage p sigalrm _ h m,
      )

  -- However signals and the steps of `process_packet` interleave, whenever a signal is not blocked,
  -- so that its handler can run, the state is one that a run reaches in which packets and alarms are
  -- single steps, with the same alarms, updates and timer.
  pub Execution-Run :
      (n : ℕ) (names : List Call) (seconds : ℕ) (p : Process) (s : Signal)
      → Execution build libs gzprintf fprintf n names seconds p
      → p.mask s ≡ false
      → Run build libs gzprintf fprintf n names seconds p.daemon
  Execution-Run n names seconds p s x m =
      let (d₀, run, h) = Execution-Backed n names seconds p x in rw (opened d₀ p.stage p s h m) run
