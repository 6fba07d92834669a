-- ===== src/Intake/Archive/Steps.antt =====
-- intake/adapters/archive.py: what one member does to the bundle of an archive.
use brain_flow.Prelude.{
  ℕ, ◌+◌, ◌-◌, String, ◌&&◌, not, none, some, [], ◌∷◌, arith, if_ind, option_ind, leb, ltb,
  if◌then◌else◌,
}
use brain_flow.Intake.Limits.{add_decompressed, check_entry_count}
use brain_flow.Intake.Quarantine.{quarantine_archive_entry, merge_quarantine}
use brain_flow.Intake.Archive.{
  Content, Member, State, add_error, truncated, Next, continues, breaks, returns, truncate_text,
  min, preview, at_segment_limit, is_nested, block_member, or_one, tar_compressed, resource_limit,
  zip_text, zip_read, zip_sized, tar_read, tar_sized,
}
use brain_flow.Intake.Archive.Between.{
  char_count-truncate_text, min-le, IsGoing, HasPlace, IsStopped, LetThrough, HasPlace-IsGoing,
  add_segment-IsGoing, warn-HasPlace, warn-IsGoing, stop-IsStopped, track-HasPlace, count-HasPlace,
  over-IsStopped,
}

-- What holds of the outcome of a loop's body.
abbrev pub Steps : (State → Type 0) → (State → Type 0) → Next → Type 0
Steps P Q (continues s) = P s
Steps P Q (breaks s) = P s
Steps P Q (returns s) = Q s

module _ (to_lower : String → String) (binary_preview : ℕ → String) (depth cap : ℕ) where
  abbrev Going : State → Type 0
  Going = IsGoing to_lower binary_preview depth cap

  abbrev Placed : State → Type 0
  Placed = HasPlace to_lower binary_preview depth cap

  abbrev Stopped : State → Type 0
  Stopped = IsStopped to_lower binary_preview depth cap

  abbrev Through : String → Type 0
  Through = LetThrough to_lower binary_preview depth cap

  limit-Steps :
      (s : State) → Going s → Steps Going Stopped (at_segment_limit to_lower binary_preview depth s)
  unfolding at_segment_limit
  limit-Steps s h =
      if_ind (Steps Going Stopped) (leb s.tracker.limits.max_segments s.order)
        (λ _. warn-IsGoing to_lower binary_preview depth cap _ s h) (λ _. h)

  zip_text-Steps :
      (name : String) (c : Content) (s : State)
      → Placed s
      → Through name
      → Steps Going Stopped (zip_text to_lower binary_preview depth name c s)
  unfolding zip_text
  zip_text-Steps name c s h t =
      let text = preview to_lower binary_preview depth c in
      let cap_chars = min 8000 s.tracker.limits.max_segment_chars in
      limit-Steps _ (
        add_segment-IsGoing to_lower binary_preview depth cap name (truncate_text text cap_chars).0
          _
          (warn-HasPlace to_lower binary_preview depth cap (truncate_text text cap_chars).1
            (truncated name) s h)
          t
          (omega (
            arith,
            char_count-truncate_text text cap_chars,
            min-le 8000 s.tracker.limits.max_segment_chars,
          )))

  zip_read-Steps :
      (m : Member) (s : State)
      → Placed s
      → Through m.filename
      → Steps Going Stopped (zip_read to_lower binary_preview depth m s)
  unfolding zip_read
  zip_read-Steps m s h t =
      option_ind (Steps Going Stopped) m.content
        (λ _.
          warn-IsGoing to_lower binary_preview depth cap _ s
            (HasPlace-IsGoing to_lower binary_preview depth cap s h))
        λ c _.
          if_ind (Steps Going Stopped)
            (ltb
              (s.tracker.limits.max_decompressed_bytes
                - (s.tracker.decompressed_bytes - m.file_size)
                + m.file_size)
              c.size)
            (λ _. stop-IsStopped to_lower binary_preview depth cap _ s h)
            (λ _. zip_text-Steps m.filename c s h t)

  tar_read-Steps :
      (m : Member) (s : State)
      → Placed s
      → Through m.filename
      → Steps Going Stopped (tar_read to_lower binary_preview depth m s)
  unfolding tar_read
  tar_read-Steps m s h t =
      option_ind (Steps Going Stopped) m.content
        (λ _.
          warn-IsGoing to_lower binary_preview depth cap _ s
            (HasPlace-IsGoing to_lower binary_preview depth cap s h))
        (λ c _.
          add_segment-IsGoing to_lower binary_preview depth cap m.filename _ s h t
            (char_count-truncate_text (preview to_lower binary_preview depth c) 8000))

  pub zip_sized-Steps :
      (m : Member) (s : State)
      → Placed s
      → Through m.filename
      → Steps Going Stopped (zip_sized to_lower binary_preview depth m s)
  unfolding zip_sized
  zip_sized-Steps m s h t =
      let t' = add_decompressed (or_one m.compress_size) m.file_size s.tracker in
      let s' = record s { tracker = t'.0 } in
      let h' =
        track-HasPlace to_lower binary_preview depth cap (or_one m.compress_size) m.file_size s h in
      option_ind (Steps Going Stopped) t'.1
        (λ _.
          if_ind (Steps Going Stopped)
            (is_nested to_lower binary_preview depth m.filename
              && ltb s'.tracker.limits.max_archive_depth (depth + 1))
            (λ _. stop-IsStopped to_lower binary_preview depth cap _ s' h')
            (λ _. zip_read-Steps m s' h' t))
        (λ e _. stop-IsStopped to_lower binary_preview depth cap _ s' h')

  pub tar_sized-Steps :
      (m : Member) (s : State)
      → Placed s
      → Through m.filename
      → Steps Going Stopped (tar_sized to_lower binary_preview depth m s)
  unfolding tar_sized
  tar_sized-Steps m s h t =
      let size = tar_compressed to_lower binary_preview depth m.file_size in
      let t' = add_decompressed size m.file_size s.tracker in
      let s' = record s { tracker = t'.0 } in
      let h' = track-HasPlace to_lower binary_preview depth cap size m.file_size s h in
      option_ind (Steps Going Stopped) t'.1 (λ _. tar_read-Steps m s' h' t)
        (λ e _. stop-IsStopped to_lower binary_preview depth cap _ s' h')

  -- The part that the two loops share: the count, and the quarantine.
  module _ (sized : Member → State → Next)
      (step : (m : Member) (s : State)
        → Placed s
        → Through m.filename
        → Steps Going Stopped (sized m s)) where
    pub member-Steps :
        (m : Member) (s : State)
        → Going s
        → Steps Going Stopped (
            if not m.is_file
            then continues s
            else (let (t, error) = check_entry_count s.tracker in
                let s' = record s { tracker = t } in
                elim error [
                  | some e ↦ returns (add_error (resource_limit e) s')
                  | none ↦
                      let q = quarantine_archive_entry to_lower m.filename in
                      let s'' = record s' {
                        quarantine = merge_quarantine (s'.quarantine ∷ q ∷ []);
                      } in
                      if q.blocked
                      then block_member to_lower binary_preview depth q m.filename s''
                      else sized m s''
                ]))
    member-Steps m s h =
        if_ind (Steps Going Stopped) (not m.is_file) (λ _. h)
          λ _.
            option_ind (Steps Going Stopped) (check_entry_count s.tracker).1
              (λ e.
                let q = quarantine_archive_entry to_lower m.filename in
                let h' =
                  count-HasPlace to_lower binary_preview depth cap
                    (merge_quarantine (s.quarantine ∷ q ∷ [])) s h e in
                if_ind (Steps Going Stopped) q.blocked
                  (λ _.
                    warn-IsGoing to_lower binary_preview depth cap _ _
                      (HasPlace-IsGoing to_lower binary_preview depth cap _ h'))
                  (λ t. step m _ h' t))
              (λ e _. over-IsStopped to_lower binary_preview depth cap _ s h)
