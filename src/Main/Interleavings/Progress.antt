-- ===== src/Main/Interleavings/Progress.antt =====
-- Signals that are blocked get their turn.
use bismark_passive.Prelude.{ℕ, ◌≡◌, refl, ◌∙◌, true, false, Option, none, some, List}
use bismark_passive.Prelude.Int.{ℤ}
use bismark_passive.Prelude.Printf.{◌>>=◌, Printf, Call}
use bismark_passive.Main.{Build, Libraries, Daemon}
use bismark_passive.Main.Frames.{Extracted, get_flow_entry_for_packet}
use bismark_passive.Main.Packets.{
  PacketHeader, flow_of_packet, store_packet, parse_dns, parse_http, account, process_packet,
}
use bismark_passive.Main.Packets.Keeps.{process_packet-returns}
use bismark_passive.Main.Runs.{Run-Kept}
use bismark_passive.Main.Consistent.{Consistent}
use bismark_passive.Main.Interleavings.{
  Stage, waiting, entered, blocked, extracted, classified, stored, dns_parsed, http_parsed, Process,
  Signals, sigprocmask_unblock, advance, step, Execution,
}
use bismark_passive.Main.Interleavings.Atomic.{
  IsOpen, During, StandsFor, unblock_all, Execution-Backed,
}

-- Both parts of a chain that succeeds do so.
chain_inv :
    {A B : Type 0} (o : Option A) (rest : A → Option B) (b : B)
    → (o >>= rest) ≡ some b
    → (a : A) × (o ≡ some a) × (rest a ≡ some b)
chain_inv none rest b e = cc
chain_inv (some a) rest b e = (a, refl, e)

-- Steps of `process_packet` alone, with calls of `sigprocmask` that succeed.
pub data Continues (build : Build) (libs : Libraries) : Process → Process → Type 0 where
  here : (p : Process) → Continues build libs p p
  next :
      (p q r : Process)
      → step build libs true p ≡ some q
      → Continues build libs q r
      → Continues build libs p r

-- The process comes to a state in which no signal is blocked, and the same are pending.
abbrev pub Opens : Build → Libraries → Process → Type 0
Opens build libs p =
    (p' : Process) × Continues build libs p p' × IsOpen p' × (p'.pending ≡ p.pending)

-- More exactly, it comes to the end of the packet, in a given state.
abbrev pub Settles : Build → Libraries → Process → Daemon → Type 0
Settles build libs p d' =
    (p' : Process) × Continues build libs p p'
    × IsOpen p'
    × (p'.pending ≡ p.pending)
    × (p'.stage ≡ waiting)
    × (p'.daemon ≡ d')

module _ (build : Build) (libs : Libraries) (mask pending : Signals) where
  abbrev pub in_stage : Stage → Daemon → Process
  in_stage stage d = record { daemon = d; stage = stage; mask = mask; pending = pending }

  -- One more step in front, which leaves the pending signals alone.
  pub one_more :
      (stage stage' : Stage) (d d₁ d' : Daemon)
      → step build libs true (in_stage stage d) ≡ some (in_stage stage' d₁)
      → Settles build libs (in_stage stage' d₁) d'
      → Settles build libs (in_stage stage d) d'
  one_more stage stage' d d₁ d' e (p', c, opened, same, waits, is) =
      (p', next (in_stage stage d) (in_stage stage' d₁) p' e c, opened, same, waits, is)

  module _ (header : PacketHeader) (bytes : List ℕ) (d' : Daemon) where
    from_http : (d : Daemon) → Settles build libs (in_stage (http_parsed header bytes) d) d
    unfolding step advance sigprocmask_unblock
    from_http d = (_, next _ _ _ refl (here _), λ s. unblock_all (mask s) s, refl, refl, refl)

    from_dns :
        (x : Extracted) (flow_id : ℕ) (d : Daemon)
        → parse_http build libs bytes x flow_id d ≡ some d'
        → Settles build libs (in_stage (dns_parsed header bytes x flow_id) d) d'
    unfolding step advance
    from_dns x flow_id d e =
        one_more (dns_parsed header bytes x flow_id) (http_parsed header bytes) d d' d' (rw e refl)
          (from_http d')

    from_store :
        (x : Extracted) (flow_id : ℕ) (packet_id : ℤ) (d : Daemon)
        → (parse_dns build libs bytes x packet_id d >>= parse_http build libs bytes x flow_id)
          ≡ some d'
        → Settles build libs (in_stage (stored header bytes x flow_id packet_id) d) d'
    unfolding step advance
    from_store x flow_id packet_id d e =
        let (d₁, first, last) = chain_inv _ (parse_http build libs bytes x flow_id) d' e in
        one_more (stored header bytes x flow_id packet_id) (dns_parsed header bytes x flow_id) d d₁
          d' (rw first refl) (from_dns x flow_id d₁ last)

    from_flow :
        (x : Extracted) (flow_id : ℕ) (d : Daemon)
        → (let added = store_packet build libs header flow_id d in
            parse_dns build libs bytes x added.1 added.0 >>= parse_http build libs bytes x flow_id)
          ≡ some d'
        → Settles build libs (in_stage (classified header bytes x flow_id) d) d'
    unfolding step advance
    from_flow x flow_id d e =
        let added = store_packet build libs header flow_id d in
        one_more (classified header bytes x flow_id) (stored header bytes x flow_id added.1) d
          added.0 d' refl (from_store x flow_id added.1 added.0 e)

    from_extraction :
        (x : Extracted) (d : Daemon)
        → account build libs header bytes x d ≡ some d'
        → Settles build libs (in_stage (extracted header bytes x) d) d'
    unfolding step advance account
    from_extraction x d e =
        let flow = flow_of_packet build libs d.flow_table x header.ts.tv_sec in
        let d₁ = record d { flow_table = flow.0 } in
        one_more (extracted header bytes x) (classified header bytes x flow.1) d d₁ d' refl
          (from_flow x flow.1 d₁ e)

    pub from_block :
        (d : Daemon)
        → process_packet build libs header bytes d ≡ some d'
        → Settles build libs (in_stage (blocked header bytes) d) d'
    unfolding step advance process_packet
    from_block d e =
        let (found, first, last) =
          chain_inv (get_flow_entry_for_packet build bytes header.caplen header.len d)
            (λ (r : Daemon × Extracted). account build libs header bytes r.1 r.0) d' e in
        one_more (blocked header bytes) (extracted header bytes found.1) d found.0 d'
          (rw first refl) (from_extraction found.1 found.0 last)

  opens : (p : Process) (d' : Daemon) → Settles build libs p d' → Opens build libs p
  opens p d' (p', c, opened, same, waits, is) = (p', c, opened, same)

  -- The packet under way is processed, in a build without the URLs of requests.
  ends :
      (off : build.http_url ≡ false) (d₀ : Daemon) (header : PacketHeader) (bytes : List ℕ)
      (rest : Option Daemon) (stage : Stage) (d : Daemon)
      → Consistent libs d₀
      → During build libs d₀ header bytes rest (in_stage stage d)
      → (d' : Daemon) × (rest ≡ some d')
  ends off d₀ header bytes rest stage d c (readable, e, closed) =
      let (d', is, _) = process_packet-returns build libs header bytes d₀ readable c off in
      (d', e ∙ is)

  finish :
      (off : build.http_url ≡ false) (d₀ : Daemon) (stage : Stage) (d : Daemon)
      → Consistent libs d₀
      → StandsFor build libs d₀ stage (in_stage stage d)
      → Opens build libs (in_stage stage d)
  finish off d₀ waiting d c h = (_, here _, h.1, refl)
  finish off d₀ (entered header bytes) d c h = (_, here _, h.2, refl)
  finish off d₀ (blocked header bytes) d c h =
      let (d', e) = ends off d₀ header bytes _ (blocked header bytes) d c h in
      opens _ d' (from_block header bytes d' d e)
  finish off d₀ (extracted header bytes x) d c h =
      let (d', e) = ends off d₀ header bytes _ (extracted header bytes x) d c h in
      opens _ d' (from_extraction header bytes d' x d e)
  finish off d₀ (classified header bytes x flow_id) d c h =
      let (d', e) = ends off d₀ header bytes _ (classified header bytes x flow_id) d c h in
      opens _ d' (from_flow header bytes d' x flow_id d e)
  finish off d₀ (stored header bytes x flow_id packet_id) d c h =
      let (d', e) = ends off d₀ header bytes _ (stored header bytes x flow_id packet_id) d c h in
      opens _ d' (from_store header bytes d' x flow_id packet_id d e)
  finish off d₀ (dns_parsed header bytes x flow_id) d c h =
      let (d', e) = ends off d₀ header bytes _ (dns_parsed header bytes x flow_id) d c h in
      opens _ d' (from_dns header bytes d' x flow_id d e)
  finish off d₀ (http_parsed header bytes) d c h = opens _ d (from_http header bytes d d)

module _ (build : Build) (libs : Libraries) {G F : Type 0} (gzprintf : Printf G)
    (fprintf : Printf F) (n : ℕ) (names : List Call) (seconds : ℕ) where
  -- In a build without the URLs of requests, from every state that an execution reaches, steps of
  -- `process_packet` alone lead to one in which no signal is blocked and exactly the signals are
  -- pending that were: a signal that arrives inside a packet waits for its end and is not lost.
  pub Execution-opens :
      build.http_url ≡ false
      → (p : Process) → Execution build libs gzprintf fprintf n names seconds p
      → Opens build libs p
  Execution-opens off p x =
      let (d₀, run, h) = Execution-Backed build libs gzprintf fprintf n names seconds p x in
      finish build libs p.mask p.pending off d₀ p.stage p.daemon
        (Run-Kept build libs gzprintf fprintf n names seconds d₀ run).consistent h
