-- ===== src/Flow/Update/Writes.antt =====
-- `flow_table_write_update` and `flow_table_write_thresholded_ips`: what they print.
use bismark_passive.Prelude.{
  ℕ, ◌+◌, ◌≡◌, refl, sym, ap, subst, ◌∙◌, Bool, true, false, Option, none, some, List, [], ◌∷◌,
  ◌++◌, map, arith, get_or-map, length-map, inl, inr, Bool-cases, Option-cases, if◌then◌else◌, take,
}
use mathlib.Core.Path.{fun_ext}
use bismark_passive.Prelude.Int.{ℤ}
use bismark_passive.Prelude.All.{OnSuccess, with_handle-OnSuccess}
use bismark_passive.Prelude.Printf.{
  ◌>>=◌, blank_line, with_handle, Call, Printf, put_all, put_all-append,
}
use bismark_passive.Platform.{Platform}
use bismark_passive.Anonymization.{Hmac, Anonymizer, anonymize_ip}
use bismark_passive.Flow.{
  FlowEntry, FlowTable, occupied, is_unsent, entry_at, flow_table_entry_init,
}
use bismark_passive.Flow.Live.{live_count}
use bismark_passive.Flow.Valid.{IsValid, KeepsEntry, Keeps-Indexed}
use bismark_passive.Flow.Update.{
  address_digest, flow_line, header_line, write_loop, write_update, over_threshold, threshold_line,
  threshold_loop, write_thresholded_ips, log_header,
}

-- What a sent entry becomes; other entries stay.
unfoldable pub sent : FlowEntry → FlowEntry
sent e = if is_unsent e.occupied then record e { occupied = occupied } else e

module _ (sha1_hmac : Hmac) (p : Platform) (a : Anonymizer) where
  -- The address as the server gets it.
  pub published : Bool → ℕ → ℕ
  published true address = address
  published false address = p.word64 (take 8 (sha1_hmac a.seed (p.bytes32 address)))

  -- A line for each flow that was not sent, in the order of the table.
  pub flow_lines : ℕ → List FlowEntry → List Call
  flow_lines idx [] = []
  flow_lines idx (e ∷ es) =
      let rest = flow_lines (idx + 1) es in
      if is_unsent e.occupied
      then flow_line idx e (published e.ip_source_unanonymized e.ip_source)
          (published e.ip_destination_unanonymized e.ip_destination)
        ∷ rest
      else rest

  -- Nothing is left to send.
  flow_lines-sent : (idx : ℕ) (es : List FlowEntry) → flow_lines idx (map sent es) ≡ []
  unfolding flow_lines sent
  flow_lines-sent idx [] = refl
  flow_lines-sent idx (e ∷ es) = ground (arith, flow_lines-sent (idx + 1) es)

  module _ (init : a.initialized ≡ true) where
    address_digest-published :
        (flag : Bool) (address : ℕ)
        → address_digest sha1_hmac p a flag address ≡ some (published flag address)
    unfolding address_digest anonymize_ip published
    address_digest-published true address = refl
    address_digest-published false address = rw init

  module _ (init : a.initialized ≡ true) {H : Type 0} (gzprintf : Printf H) where
    with_entry-bind :
        (e : FlowEntry) (es : List FlowEntry) (o : Option H)
        → (o >>= with_handle es >>= λ r. with_handle (e ∷ r.0) r.1) ≡ (o >>= with_handle (e ∷ es))
    with_entry-bind e es none = refl
    with_entry-bind e es (some h) = refl

    write_loop-flow_lines :
        (idx : ℕ) (es : List FlowEntry) (h : H)
        → write_loop sha1_hmac p a gzprintf idx es h
          ≡ (put_all gzprintf h (flow_lines idx es) >>= with_handle (map sent es))
    unfolding write_loop flow_lines sent
    write_loop-flow_lines idx [] h = refl
    write_loop-flow_lines idx (e ∷ es) h = elim (Bool-cases (is_unsent e.occupied)) [
      | inr n ↦
          rw (n, write_loop-flow_lines (idx + 1) es h)
            (with_entry-bind e (map sent es) (put_all gzprintf h (flow_lines (idx + 1) es)))
      | inl u ↦
          rw
            (
              u,
              address_digest-published init e.ip_source_unanonymized e.ip_source,
              address_digest-published init e.ip_destination_unanonymized e.ip_destination,
            )
            (elim (Option-cases (gzprintf h (line idx e))) [
              | inl failed ↦ rw failed
              | inr (h', ok) ↦
                  rw (ok, write_loop-flow_lines (idx + 1) es h')
                    (with_entry-bind (record e { occupied = occupied }) (map sent es)
                      (put_all gzprintf h' (flow_lines (idx + 1) es)))
            ])
    ]
      where
        line : ℕ → FlowEntry → Call
        line idx e =
            flow_line idx e (published e.ip_source_unanonymized e.ip_source)
              (published e.ip_destination_unanonymized e.ip_destination)

    pub write_update_lem :
        (t : FlowTable) (h : H)
        → write_update sha1_hmac p a gzprintf t h ≡ (
            put_all gzprintf h (header_line t ∷ flow_lines 0 t.entries ++ (blank_line ∷ []))
            >>= with_handle (record t { entries = map sent t.entries }))
    unfolding write_update
    write_update_lem t h = elim (Option-cases (gzprintf h (header_line t))) [
      | inl failed ↦ rw failed
      | inr (h₁, ok) ↦
          rw
            (
              ok,
              write_loop-flow_lines 0 t.entries h₁,
              put_all-append gzprintf h₁ (flow_lines 0 t.entries) (blank_line ∷ []),
            )
            (finish_up (put_all gzprintf h₁ (flow_lines 0 t.entries)))
    ]
      where
        finish_up :
            (o : Option H)
            → (o >>= with_handle (map sent t.entries) >>= λ r.
                gzprintf r.1 blank_line >>= with_handle (record t { entries = r.0 }))
              ≡ ((o >>= (λ h'. put_all gzprintf h' (blank_line ∷ [])))
                  >>= with_handle (record t { entries = map sent t.entries }))
        finish_up none = refl
        finish_up (some h') = elim (Option-cases (gzprintf h' blank_line)) [
          | inl failed ↦ rw failed
          | inr (h'', ok) ↦ rw ok
        ]

pub KeepsEntry-sent : (e : FlowEntry) → KeepsEntry e (sent e)
unfolding sent
KeepsEntry-sent e = ground arith

live_count-sent : (es : List FlowEntry) → live_count (map sent es) ≡ live_count es
unfolding sent live_count
live_count-sent [] = refl
live_count-sent (e ∷ es) = ground (arith, live_count-sent es)

-- Marking the flows as sent keeps the invariant.
pub sent-IsValid :
    (p : Platform) (t : FlowTable)
    → IsValid p t
    → IsValid p (record t { entries = map sent t.entries })
unfolding sent
sent-IsValid p t v = record {
  width = length-map sent t.entries ∙ v.width;
  counted = v.counted ∙ sym (live_count-sent t.entries);
  indexed =
      Keeps-Indexed p t (record t { entries = map sent t.entries })
        (λ i.
          rw (get_or-map sent t.entries i flow_table_entry_init refl)
            (KeepsEntry-sent (entry_at t i)))
        v.indexed;
}

map-sent_twice : (es : List FlowEntry) → map sent (map sent es) ≡ map sent es
unfolding sent
map-sent_twice [] = refl
map-sent_twice (e ∷ es) = ground (arith, map-sent_twice es)

module _ (sha1_hmac : Hmac) (p : Platform) (a : Anonymizer) (init : a.initialized ≡ true)
    {H : Type 0} (gzprintf : Printf H) where
  after_update :
      {T : Type 0} (o : Option H) (x t' : T) (h' : H)
      → (o >>= with_handle x) ≡ some (t', h')
      → x ≡ t'
  after_update none x t' h' e = cc
  after_update (some h) x t' h' e = cc

  -- An update that succeeds leaves a valid table valid.
  pub write_update-IsValid :
      (t : FlowTable) (h : H)
      → IsValid p t
      → OnSuccess (λ r. IsValid p r.0) (write_update sha1_hmac p a gzprintf t h)
  write_update-IsValid t h v = rw (write_update_lem sha1_hmac p a init gzprintf t h) (
      with_handle-OnSuccess (λ t. IsValid p t) (record t { entries = map sent t.entries })
        (put_all gzprintf h
          (header_line t ∷ flow_lines sha1_hmac p a 0 t.entries ++ (blank_line ∷ [])))
        (sent-IsValid p t v))

  -- Each flow is sent once: an update right after one that succeeded prints no flow, only its header
  -- and the blank line, and leaves the table as it is.
  pub write_update-once :
      (t t' : FlowTable) (h h' k : H)
      → write_update sha1_hmac p a gzprintf t h ≡ some (t', h')
      → write_update sha1_hmac p a gzprintf t' k
        ≡ (put_all gzprintf k (header_line t' ∷ blank_line ∷ []) >>= with_handle t')
  write_update-once t t' h h' k e =
      let same : record t { entries = map sent t.entries } ≡ t' =
        after_update _ _ t' h' (sym (write_update_lem sha1_hmac p a init gzprintf t h) ∙ e) in
      subst
        (λ u.
          write_update sha1_hmac p a gzprintf u k
          ≡ (put_all gzprintf k (header_line u ∷ blank_line ∷ []) >>= with_handle u))
        same
        (rw (
          write_update_lem sha1_hmac p a init gzprintf (record t { entries = map sent t.entries })
              k,
          flow_lines-sent sha1_hmac p a 0 t.entries,
          map-sent_twice t.entries,
        ))

-- The flows over the threshold, in the order of the table.
pub threshold_lines : ℕ → List FlowEntry → List Call
threshold_lines idx [] = []
threshold_lines idx (e ∷ es) =
    let rest = threshold_lines (idx + 1) es in
    if over_threshold e then threshold_line idx e ∷ rest else rest

module _ {H : Type 0} (fprintf : Printf H) where
  threshold_loop-lines :
      (idx : ℕ) (es : List FlowEntry) (h : H)
      → threshold_loop fprintf idx es h ≡ put_all fprintf h (threshold_lines idx es)
  unfolding threshold_loop threshold_lines
  threshold_loop-lines idx [] h = refl
  threshold_loop-lines idx (e ∷ es) h = elim (Bool-cases (over_threshold e)) [
    | inl o ↦ rw o (
        ap (λ f. fprintf h (threshold_line idx e) >>= f)
          (fun_ext (threshold_loop-lines (idx + 1) es)))
    | inr n ↦ rw n (threshold_loop-lines (idx + 1) es h)
  ]

  -- The log names the session and the sequence number, then, by its index and with its addresses in
  -- clear, each flow not sent yet whose packet counter is at least 10, and no other.
  pub write_thresholded_ips_lem :
      (t : FlowTable) (session_id : ℕ) (sequence_number : ℤ) (h : H)
      → write_thresholded_ips fprintf t session_id sequence_number h
        ≡ put_all fprintf h (log_header session_id sequence_number ∷ threshold_lines 0 t.entries)
  unfolding write_thresholded_ips
  write_thresholded_ips_lem t session_id sequence_number h =
      ap (λ f. fprintf h (log_header session_id sequence_number) >>= f)
        (fun_ext (threshold_loop-lines 0 t.entries))
