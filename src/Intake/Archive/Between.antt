-- ===== src/Intake/Archive/Between.antt =====
-- intake/adapters/archive.py: what holds of the bundle of an archive between and within members.
use brain_flow.Prelude.{
  ℕ, zero, suc, ◌+◌, ◌≤◌, String, ◌≡◌, Bool, true, false, none, some, [], ◌∷◌, arith, All,
  All-append, length, length-append, if_ind, leb, ltb, leb→le, if◌then◌else◌,
}
use brain_flow.Prelude.Text.{take_chars, char_count}
use brain_flow.Intake.Limits.{LimitError, add_decompressed, check_entry_count}
use brain_flow.Intake.Quarantine.{QuarantineResult, quarantine_archive_entry}
use brain_flow.Intake.Archive.{
  Segment, State, Issue, add_error, add_warning, truncate_text, min, add_segment,
}

char_count-take_chars : (n : ℕ) (s : String) → char_count (take_chars n s) ≤ n
char_count-take_chars zero s = omega arith
char_count-take_chars (suc n) String.[] = omega arith
char_count-take_chars (suc n) (String.◌∷◌ c s) = omega (arith, char_count-take_chars n s)

pub char_count-truncate_text : (s : String) (n : ℕ) → char_count (truncate_text s n).0 ≤ n
unfolding truncate_text
char_count-truncate_text s n =
    if_ind (λ (r : String × Bool). char_count r.0 ≤ n) (leb (char_count s) n) (λ h. leb→le _ _ h)
      (λ _. char_count-take_chars n s)

pub min-le : (a b : ℕ) → min a b ≤ a
min-le a b = ground arith

module _ (to_lower : String → String) (binary_preview : ℕ → String) (depth : ℕ) where
  -- A segment shows a member that the quarantine lets through, in at most 8000 characters.
  abbrev pub IsSafe : Segment → Type 0
  IsSafe g =
      ((quarantine_archive_entry to_lower g.entry_path).blocked ≡ false)
      × (char_count g.text ≤ 8000)

  module _ (cap : ℕ) where
    -- Between two members of a loop.
    pub record IsGoing (s : State) : Type 0 where
      pub limit : s.tracker.limits.max_archive_entries ≡ cap
      pub entries : s.tracker.entries_seen ≤ cap
      pub counted : length s.bundle.segments ≤ s.tracker.entries_seen
      pub clear : s.bundle.errors ≡ []
      pub safe : All IsSafe s.bundle.segments

    -- A member has been counted that has no segment yet.
    pub record HasPlace (s : State) : Type 0 where
      limit : s.tracker.limits.max_archive_entries ≡ cap
      entries : s.tracker.entries_seen ≤ cap
      counted : length s.bundle.segments + 1 ≤ s.tracker.entries_seen
      clear : s.bundle.errors ≡ []
      safe : All IsSafe s.bundle.segments

    pub record IsStopped (s : State) : Type 0 where
      pub counted : length s.bundle.segments ≤ cap
      pub safe : All IsSafe s.bundle.segments

    pub HasPlace-IsGoing : (s : State) → HasPlace s → IsGoing s
    HasPlace-IsGoing s h = record {
      limit = h.limit;
      entries = h.entries;
      counted = omega arith;
      clear = h.clear;
      safe = h.safe;
    }

    pub HasPlace-IsStopped : (s : State) → HasPlace s → IsStopped s
    HasPlace-IsStopped s h = record { counted = omega arith; safe = h.safe }

    pub add_segment-IsGoing :
        (name text : String) (s : State)
        → HasPlace s
        → ((quarantine_archive_entry to_lower name).blocked ≡ false)
        → char_count text ≤ 8000
        → IsGoing (add_segment to_lower binary_preview depth name text s)
    unfolding add_segment
    add_segment-IsGoing name text s h let_through short = record {
      limit = h.limit;
      entries = h.entries;
      counted = omega (
        arith,
        length-append {0} s.bundle.segments
            (record { order = s.order; entry_path = name; text = text } ∷ []),
      );
      clear = h.clear;
      safe = All-append IsSafe s.bundle.segments _ h.safe ((let_through, short), tt);
    }

    pub warn-HasPlace :
        (b : Bool) (i : Issue) (s : State)
        → HasPlace s
        → HasPlace (if b then add_warning i s else s)
    warn-HasPlace true i s h = record {
      limit = h.limit;
      entries = h.entries;
      counted = h.counted;
      clear = h.clear;
      safe = h.safe;
    }
    warn-HasPlace false i s h = h

    pub warn-IsGoing : (i : Issue) (s : State) → IsGoing s → IsGoing (add_warning i s)
    warn-IsGoing i s h = record {
      limit = h.limit;
      entries = h.entries;
      counted = h.counted;
      clear = h.clear;
      safe = h.safe;
    }

    abbrev pub LetThrough : String → Type 0
    LetThrough name = (quarantine_archive_entry to_lower name).blocked ≡ false

    pub stop-IsStopped : (i : Issue) (s : State) → HasPlace s → IsStopped (add_error i s)
    stop-IsStopped i s h = record { counted = omega arith; safe = h.safe }

    -- The tracker counts the bytes of a member; the rest stays.
    pub track-HasPlace :
        (compressed expanded : ℕ) (s : State)
        → HasPlace s
        → HasPlace (record s { tracker = (add_decompressed compressed expanded s.tracker).0 })
    unfolding add_decompressed
    track-HasPlace compressed expanded s h = record {
      limit = h.limit;
      entries = h.entries;
      counted = h.counted;
      clear = h.clear;
      safe = h.safe;
    }

    pub count-HasPlace :
        (q : QuarantineResult) (s : State)
        → IsGoing s
        → (check_entry_count s.tracker).1 ≡ none
        → HasPlace (record s { tracker = (check_entry_count s.tracker).0; quarantine = q })
    unfolding check_entry_count
    count-HasPlace q s h e = record {
      limit = h.limit;
      entries = few (s.tracker.entries_seen + 1) s.tracker.limits.max_archive_entries e h.limit;
      counted = omega (arith, h.counted);
      clear = h.clear;
      safe = h.safe;
    }
      where
        few :
            (n limit : ℕ)
            → (if ltb limit n then some LimitError.entry_count else none) ≡ none
            → limit ≡ cap
            → n ≤ cap
        few n limit f g = ground arith

    pub over-IsStopped :
        (i : Issue) (s : State)
        → IsGoing s
        → IsStopped (add_error i (record s { tracker = (check_entry_count s.tracker).0 }))
    over-IsStopped i s h = record { counted = omega (arith, h.counted, h.entries); safe = h.safe }
