-- ===== src/Whitelist/Entries.antt =====
-- The lines of a whitelist's text, and what `strtok` finds of them.
use mathlib.Core.List.{append_assoc}
use bismark_passive.Prelude.{
  ℕ, ◌≡◌, ◌≢◌, refl, sym, ap, ◌∙◌, List, [], ◌∷◌, ◌++◌, ◌==◌, ◌⊎◌, Bool-cases, inl, inr, ==_iff,
}
use bismark_passive.Whitelist.{newline, keep, scan, tokens}
use bismark_passive.Whitelist.Lines.{OneLine, scan-Lines, scan-append}

-- At the start of the text, or behind a newline.
abbrev pub StartsLine : List ℕ → Type 0
StartsLine before = (before ≡ []) ⊎ ((b : List ℕ) × (before ≡ b ++ newline ∷ []))

-- At the end of the text, or in front of a newline.
abbrev pub EndsLine : List ℕ → Type 0
EndsLine after = (after ≡ []) ⊎ ((a : List ℕ) × (after ≡ newline ∷ a))

-- A part of the text between two line ends that is not empty and has no newline in it.
pub record LineOf (contents entry : List ℕ) : Type 0 where
  pub before : List ℕ
  pub after : List ℕ
  pub splits : contents ≡ before ++ (entry ++ after)
  pub starts : StartsLine before
  pub ends : EndsLine after
  pub one_line : OneLine entry
  pub not_empty : entry ≢ []

abbrev pub In : List ℕ → List (List ℕ) → Type 0
In entry [] = ⊥
In entry (e ∷ es) = (entry ≡ e) ⊎ In entry es

In-keep : (entry w : List ℕ) (ws : List (List ℕ)) → In entry ws → In entry (keep w ws)
In-keep entry [] ws i = i
In-keep entry (c ∷ w) ws i = inr i

keep-first : (w : List ℕ) (ws : List (List ℕ)) → w ≢ [] → In w (keep w ws)
keep-first [] ws ne = absurd (ne refl)
keep-first (c ∷ w) ws ne = inl refl

keep-cases :
    (entry w : List ℕ) (ws : List (List ℕ))
    → In entry (keep w ws)
    → ((entry ≡ w) × (w ≢ [])) ⊎ In entry ws
keep-cases entry [] ws i = inr i
keep-cases entry (c ∷ w) ws (inl e) = inl (e, λ e'. cc)
keep-cases entry (c ∷ w) ws (inr i) = inr i

-- The first of the two results is what stands before the first newline.
scan-first : (cs : List ℕ) → (after : List ℕ) × (cs ≡ (scan cs).0 ++ after) × EndsLine after
unfolding scan
scan-first [] = ([], refl, inl refl)
scan-first (c ∷ cs) = elim (Bool-cases (c == newline)) [
  | inl ends ↦ rw ends (c ∷ cs, refl, inr (cs, ap (λ d. d ∷ cs) ((==_iff c newline).0 ends)))
  | inr more ↦ let (after, e, ends) = scan-first cs in rw more (after, ap (λ l. c ∷ l) e, ends)
]

-- The others stand behind a newline.
record LineBehind (cs entry : List ℕ) : Type 0 where
  before : List ℕ
  after : List ℕ
  splits : cs ≡ before ++ newline ∷ (entry ++ after)
  ends : EndsLine after
  one_line : OneLine entry
  not_empty : entry ≢ []

LineBehind-cons : (c : ℕ) (cs entry : List ℕ) → LineBehind cs entry → LineBehind (c ∷ cs) entry
LineBehind-cons c cs entry l = record {
  before = c ∷ l.before;
  after = l.after;
  splits = ap (λ cs. c ∷ cs) l.splits;
  ends = l.ends;
  one_line = l.one_line;
  not_empty = l.not_empty;
}

scan-LineBehind : (cs entry : List ℕ) → In entry (scan cs).1 → LineBehind cs entry
unfolding scan
scan-LineBehind [] entry i = absurd i
scan-LineBehind (c ∷ cs) entry i = elim (Bool-cases (c == newline)) [
  | inl ends ↦
      let i' : In entry (keep (scan cs).0 (scan cs).1) = rw ends at i in
      elim (keep-cases entry (scan cs).0 (scan cs).1 i') [
        | inl (e, ne) ↦
            let (after, e', ends') = scan-first cs in
            record {
              before = [];
              after = after;
              splits =
                  ap (λ d. d ∷ cs) ((==_iff c newline).0 ends)
                  ∙ ap (λ l. newline ∷ l) (e' ∙ ap (λ w. w ++ after) (sym e));
              ends = ends';
              one_line = rw e (scan-Lines cs).0;
              not_empty = rw e ne;
            }
        | inr i'' ↦ LineBehind-cons c cs entry (scan-LineBehind cs entry i'')
      ]
  | inr more ↦
      let i' : In entry (scan cs).1 = rw more at i in
      LineBehind-cons c cs entry (scan-LineBehind cs entry i')
]

-- A line that reaches to the end of the text.
scan_end : (entry : List ℕ) → OneLine entry → scan (entry ++ []) ≡ (entry, [])
unfolding scan
scan_end [] o = refl
scan_end (c ∷ entry) (more, o) = rw (more, scan_end entry o) refl

first_line :
    (entry after : List ℕ)
    → OneLine entry
    → EndsLine after
    → entry ≢ []
    → In entry (tokens (entry ++ after))
unfolding tokens
first_line entry after o (inl e) ne = rw (e, scan_end entry o) (keep-first entry [] ne)
first_line entry after o (inr (a, e)) ne =
    rw (e, scan-append entry a o) (keep-first entry (tokens a) ne)

later_line :
    (b rest entry : List ℕ) → In entry (tokens rest) → In entry (scan (b ++ newline ∷ rest)).1
unfolding scan tokens
later_line [] rest entry i = i
later_line (c ∷ b) rest entry i =
    let i' = later_line b rest entry i in
    elim (Bool-cases (c == newline)) [
      | inl ends ↦
          rw ends (In-keep entry (scan (b ++ newline ∷ rest)).0 (scan (b ++ newline ∷ rest)).1 i')
      | inr more ↦ rw more i'
    ]

-- A token of the text is a line of it, and a line is a token.
pub LineOf-of_token : (contents entry : List ℕ) → In entry (tokens contents) → LineOf contents entry
unfolding tokens
LineOf-of_token contents entry i = elim (keep-cases entry (scan contents).0 (scan contents).1 i) [
  | inl (e, ne) ↦
      let (after, e', ends) = scan-first contents in
      record {
        before = [];
        after = after;
        splits = e' ∙ ap (λ w. w ++ after) (sym e);
        starts = inl refl;
        ends = ends;
        one_line = rw e (scan-Lines contents).0;
        not_empty = rw e ne;
      }
  | inr i' ↦
      let l = scan-LineBehind contents entry i' in
      record {
        before = l.before ++ newline ∷ [];
        after = l.after;
        splits = l.splits ∙ sym (append_assoc l.before (newline ∷ []) (entry ++ l.after));
        starts = inr (l.before, refl);
        ends = l.ends;
        one_line = l.one_line;
        not_empty = l.not_empty;
      }
]

pub token-of_LineOf : (contents entry : List ℕ) → LineOf contents entry → In entry (tokens contents)
unfolding tokens
token-of_LineOf contents entry l = rw l.splits (at_start l.before l.starts)
  where
    line : In entry (tokens (entry ++ l.after))
    line = first_line entry l.after l.one_line l.ends l.not_empty

    at_start :
        (before : List ℕ) → StartsLine before → In entry (tokens (before ++ (entry ++ l.after)))
    at_start before (inl e) = rw e line
    at_start before (inr (b, e)) =
        rw (e, append_assoc b (newline ∷ []) (entry ++ l.after))
          (In-keep entry (scan (b ++ newline ∷ (entry ++ l.after))).0
            (scan (b ++ newline ∷ (entry ++ l.after))).1
            (later_line b (entry ++ l.after) entry line))
