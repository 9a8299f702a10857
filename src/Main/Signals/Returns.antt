-- ===== src/Main/Signals/Returns.antt =====
-- When the handler of an alarm returns.
use bismark_passive.Prelude.{
  ℕ, ◌≡◌, refl, sym, subst, ap, ◌∙◌, true, false, Bool, Bool-cases, inl, inr, Option, none, some,
  List, [], ◌∷◌, ◌++◌, length, if◌then◌else◌,
}
use bismark_passive.Prelude.Int.{ℤ}
use bismark_passive.Prelude.Printf.{◌>>=◌, Printf, Call, put_all}
use bismark_passive.Prelude.All.{OnSuccess-some}
use bismark_passive.Anonymization.{anonymization_digest_length}
use bismark_passive.Bloom
use bismark_passive.Address.Ring
use bismark_passive.Uploads.{check, read_failures}
use bismark_passive.Main.{Build, Libraries, Daemon}
use bismark_passive.Main.Consistent.{Consistent}
use bismark_passive.Main.Updates.{Answers}
use bismark_passive.Main.Updates.{
  Staged, write_flow_log, next_period, update_filename, write_update,
}
use bismark_passive.Main.Updates.Report.{main-write_update, noted, preamble, tables}
use bismark_passive.Main.Signals.{
  Signal, Round, Written, Handled, returned, next_alarm, check_uploads, sigalrm, sigint, sigterm,
  exited, handle_termination, handle_signals, handle_alarm, update_if, frequent_update_if_built,
  is_due, count_alarm,
}
use bismark_passive.Main.Signals.Alarms.{Ends, handle_alarm-Ends}

-- The two signals of the branch that ends the program.
abbrev pub Terminates : Signal → Type 0
Terminates sigint = Unit
Terminates sigterm = Unit
Terminates sigalrm = ⊥

-- No call of `gzprintf` fails.
abbrev pub NeverFails : {H : Type 0} → Printf H → Type 0
NeverFails {H} gzprintf = (h : H) (c : Call) → (h' : H) × (gzprintf h c ≡ some h')

put_all-some :
    {H : Type 0} (gzprintf : Printf H)
    → NeverFails gzprintf
    → (h : H) (cs : List Call) → (h' : H) × (put_all gzprintf h cs ≡ some h')
put_all-some gzprintf total h [] = (h, refl)
put_all-some gzprintf total h (c ∷ cs) =
    let (h₁, e) = total h c in let (h₂, e') = put_all-some gzprintf total h₁ cs in (h₂, rw (e) e')

>>=-some :
    {A B : Type 0} (o : Option A) (f : A → Option B)
    → (a : A) × (o ≡ some a)
    → ((a : A) → (b : B) × (f a ≡ some b))
    → (b : B) × ((o >>= f) ≡ some b)
>>=-some none f (a, e) later = cc
>>=-some (some a) f _ later = later a

staged_update :
    {G : Type 0} (build : Build) (libs : Libraries) (gzprintf : Printf G) (d : Daemon)
    (answer : List ℕ → ℤ)
    → Ring.IsValid d.address_table
    → d.anonymizer.initialized ≡ true
    → ((key bytes : List ℕ) → length (libs.sha1_hmac key bytes) ≡ anonymization_digest_length)
    → ((name : List ℕ) → Bloom.lookup d.dns_table.bloom name ≡ some (answer name))
    → build.http_url ≡ false
    → NeverFails gzprintf
    → (handle : G) (system : Answers G) → system.handle ≡ some handle
    → system.renamed ≡ true
    → (r : Daemon × Staged G) × (write_update build libs gzprintf system d ≡ some r)
staged_update build libs gzprintf d answer addresses init long answers no_urls total handle system
      opens renames =
    let lines = preamble d system.current_timestamp system.statistics ++ tables libs answer d in
    let (contents, e) = put_all-some gzprintf total handle lines in
    (
      (
        next_period build libs system.current_timestamp (noted d),
        record { filename = update_filename d; contents = contents },
      ),
      main-write_update build libs gzprintf d answer addresses init long answers no_urls system
          ∙ rw (opens, e, renames) refl,
    )

module _ (build : Build) (libs : Libraries) {G F : Type 0} (gzprintf : Printf G)
    (fprintf : Printf F) (d : Daemon) (c : Consistent libs d) (answer : List ℕ → ℤ)
    (long : (key bytes : List ℕ) → length (libs.sha1_hmac key bytes) ≡ anonymization_digest_length)
    (answers : (name : List ℕ) → Bloom.lookup d.dns_table.bloom name ≡ some (answer name))
    (no_urls : build.http_url ≡ false) (no_frequent : build.frequent_updates ≡ false)
    (total : NeverFails gzprintf) (handle : G) (system : Round G F)
    (opens : system.update.handle ≡ some handle) (renames : system.update.renamed ≡ true) where
  write_update-some :
      (r : Daemon × Staged G) × (write_update build libs gzprintf system.update (count_alarm d)
        ≡ some r)
  write_update-some =
      staged_update build libs gzprintf (count_alarm d) answer c.addresses c.initialized long
        answers no_urls total handle system.update opens renames

  update_if-some :
      (r : Daemon × Option (Staged G)) × (update_if build libs gzprintf fprintf
          (is_due build (count_alarm d))
          system.update
          (count_alarm d)
        ≡ some r)
  unfolding update_if
  update_if-some = elim (Bool-cases (is_due build (count_alarm d))) [
    | inr early ↦ ((count_alarm d, none), rw early refl)
    | inl due ↦ let (r, e) = write_update-some in ((r.0, some r.1), rw (due, e) refl)
  ]

  frequent-some :
      (d' : Daemon)
      → (r : Daemon × Option (Staged F)) × (frequent_update_if_built build libs gzprintf fprintf
            system.frequent_update d'
          ≡ some r)
  unfolding frequent_update_if_built
  frequent-some d' = ((d', none), rw no_frequent refl)

  handle_alarm-some :
      (h : Handled G F) × (handle_alarm build libs gzprintf fprintf system (count_alarm d) ≡ some h)
  unfolding handle_alarm
  handle_alarm-some =
      >>=-some
        (update_if build libs gzprintf fprintf (is_due build (count_alarm d)) system.update
          (count_alarm d))
        _ update_if-some
        λ r.
          >>=-some (frequent_update_if_built build libs gzprintf fprintf system.frequent_update r.0)
            _ (frequent-some r.0) λ r'. (_, refl)

  -- In a build without frequent updates and URLs, in a consistent state, with digests of 20 bytes
  -- and while the Bloom filter answers, every alarm is handled to its end if the file of the update
  -- opens, no write to it fails and it can be renamed: the handler does not exit for an error. When
  -- an update is due it is staged under its number, and only failed uploads end the program;
  -- otherwise the next alarm is set.
  pub handle_signals-Ends :
      (h : Handled G F) × (handle_signals build libs gzprintf fprintf sigalrm system d ≡ some h)
      × Ends build libs (count_alarm d) h
  unfolding handle_signals
  handle_signals-Ends =
      let (h, e) = handle_alarm-some in
      (
        h,
        e,
        OnSuccess-some (Ends build libs (count_alarm d)) _ h
            (handle_alarm-Ends build libs gzprintf fprintf system (count_alarm d) (record {
              packets = c.packets;
              flows = c.flows;
              records = c.records;
              addresses = c.addresses;
              devices = c.devices;
              drops = c.drops;
              initialized = c.initialized;
            }))
            e,
      )

  -- Where the failed uploads cannot be read, the handler goes on.
  unread :
      (due : Bool) (d' : Daemon) (w : Written G F)
      → (d'' : Daemon) × (check_uploads build libs gzprintf fprintf due none d' w
          ≡ returned d'' (next_alarm build) w)
  unfolding check_uploads check read_failures
  unread true d' w = (d', refl)
  unread false d' w = (d', refl)

  pub handle_signals-returned :
      system.upload_failures ≡ none
      → (d' : Daemon) × (w : Written G F) × (handle_signals build libs gzprintf fprintf sigalrm
            system d
          ≡ some (returned d' (next_alarm build) w))
  unfolding handle_signals handle_alarm
  handle_signals-returned unreadable =
      let (r, e) = update_if-some in
      let (r', e') = frequent-some r.0 in
      let due = is_due build (count_alarm d) in
      let w : Written G F = record {
        flow_log =
            (if due then write_flow_log libs fprintf system.flow_log (count_alarm d) else none);
        update = r.1;
        frequent_update = r'.1;
      } in
      let (d', is) =
        subst
          (λ failures.
            (d' : Daemon) × (check_uploads build libs gzprintf fprintf due failures r'.0 w
              ≡ returned d' (next_alarm build) w))
          (sym unreadable) (unread due r'.0 w) in
      (d', w, rw (e, e') (ap some is))

  termination-some :
      (h : Handled G F) × (handle_termination build libs gzprintf fprintf system d ≡ some h)
  unfolding handle_termination
  termination-some =
      let (r, e) =
        staged_update build libs gzprintf d answer c.addresses c.initialized long answers no_urls
          total handle system.update opens renames in
      let (r', e') = frequent-some r.0 in
      (
        exited 0 (record { flow_log = none; update = some r.1; frequent_update = r'.1 }),
        rw (e, e') refl,
      )

  pub handle_signals-terminated :
      (s : Signal)
      → Terminates s
      → (h : Handled G F) × (handle_signals build libs gzprintf fprintf s system d ≡ some h)
  unfolding handle_signals
  handle_signals-terminated sigint t = termination-some
  handle_signals-terminated sigterm t = termination-some
  handle_signals-terminated sigalrm t = absurd t
