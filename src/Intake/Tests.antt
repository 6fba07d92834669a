-- ===== src/Intake/Tests.antt =====
-- intake: runs on small inputs, and the theorems at inputs that meet their hypotheses. `str.lower`
-- is the identity here: the names are in lower case.
use brain_flow.Prelude.{ℕ, ◌*◌, String, refl, true, some, [], ◌∷◌, arith, ltb}
use brain_flow.Intake.Limits.{IntakeLimits}
use brain_flow.Intake.Quarantine.{QuarantineResult, clean}
use brain_flow.Intake.Archive.{Archive, zip, Member, State, extract}
use brain_flow.Intake.Archive.Members.{IsKept, extract-IsKept}

abbrev lower : String → String
lower s = s

abbrev hex : ℕ → String
hex n = "hex:"

abbrev flagged : QuarantineResult
flagged = record clean { actions = "executable:.exe" ∷ "executable:.exe" ∷ []; blocked = true }

abbrev limits : IntakeLimits
limits = record {
  max_file_bytes = 1000;
  max_archive_depth = 3;
  max_archive_entries = 2;
  max_decompressed_bytes = 1000;
  ratio_exceeds = λ e c. ltb (100 * c) e;
  max_segments = 10;
  max_segment_chars = 100;
}

abbrev start : State
start = record {
  bundle = record { errors = []; warnings = []; segments = []; confidence = 0 };
  tracker = record { limits = limits; decompressed_bytes = 0; entries_seen = 0 };
  quarantine = clean;
  order = 0;
}

abbrev member : String → Member
member name = record {
  filename = name;
  is_file = true;
  compress_size = 5;
  file_size = 5;
  content = some (record { size = 5; text = some "hello" });
}

abbrev bundle_zip : Archive
bundle_zip = zip (some (member "a.txt" ∷ member "b.exe" ∷ member "c.txt" ∷ []))

extract-IsKept_example : IsKept lower hex 0 2 (extract lower hex 0 bundle_zip start)
extract-IsKept_example =
    extract-IsKept lower hex 0 2 bundle_zip start (record {
      limit = refl;
      entries = omega arith;
      counted = omega arith;
      clear = refl;
      safe = tt;
    })
