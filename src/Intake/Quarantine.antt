-- ===== src/Intake/Quarantine.antt =====
-- intake/quarantine.py: which names are blocked. `str.lower` is a parameter of the library's.
pub mod Laws
pub mod Html
use Prim.Native.String
use brain_flow.Prelude.{
  ℕ, String, Bool, true, false, ◌||◌, not, ◌&&◌, Option, none, some, List, [], ◌∷◌, ◌++◌, any,
  str_eq, if◌then◌else◌,
}
use brain_flow.Prelude.Text.{codes, after_last, forward_slashes, is_infix}

abbrev pub hard_executable_extensions : List String
hard_executable_extensions =
    ".exe" ∷ ".dll" ∷ ".so" ∷ ".dylib" ∷ ".bat" ∷ ".cmd" ∷ ".com" ∷ ".msi" ∷ ".scr" ∷ ".vbs"
    ∷ ".vbe" ∷ ".jse" ∷ ".wsf" ∷ ".wsh" ∷ ".jar" ∷ ".apk" ∷ ".app" ∷ ".bin" ∷ ".run" ∷ ".gadget"
    ∷ ".hta" ∷ ".cpl" ∷ ".msc" ∷ ".reg" ∷ ".inf" ∷ ".lnk" ∷ ".url" ∷ ".scf" ∷ ".pif" ∷ []

abbrev pub archive_script_extensions : List String
archive_script_extensions = ".ps1" ∷ ".js" ∷ ".sh" ∷ ".bash" ∷ ".zsh" ∷ ".fish" ∷ []

abbrev pub macro_container_extensions : List String
macro_container_extensions =
    ".docm" ∷ ".xlsm" ∷ ".pptm" ∷ ".dotm" ∷ ".xltm" ∷ ".potm" ∷ ".docb" ∷ []

-- The parts' names in lower case.
abbrev pub ooxml_macro_parts : List String
ooxml_macro_parts = "vbaproject.bin" ∷ "vbadata.xml" ∷ "vbaproject.bin" ∷ []

pub data BlockReason : Type 0 where
  executable_extension archive_script : String → BlockReason
  macro_payload : BlockReason

pub record QuarantineResult : Type 0 where
  pub actions : List String
  pub active_content_flags : List String
  pub macros_blocked : Bool
  pub scripts_stripped : Bool
  pub blocked : Bool
  pub block_reason : Option BlockReason

abbrev pub clean : QuarantineResult
clean = record {
  actions = [];
  active_content_flags = [];
  macros_blocked = false;
  scripts_stripped = false;
  blocked = false;
  block_reason = none;
}

abbrev pub in_list : List String → String → Bool
in_list xs x = any (str_eq x) xs

-- The extension of a name in lower case with forward slashes, with its dot; "" if there is none.
unfoldable pub extension : String → String
extension lower =
    let base : String = elim (after_last b'/' lower) [ none ↦ lower | some r ↦ r ] in
    elim (after_last b'.' base) [ none ↦ "" | some r ↦ String.◌++◌ "." r ]

abbrev pub block : BlockReason → String → String → QuarantineResult → QuarantineResult
block reason flag action r = record r {
  actions = r.actions ++ action ∷ [];
  active_content_flags = r.active_content_flags ++ flag ∷ [];
  blocked = true;
  block_reason = some reason;
}

abbrev pub flag_macros : String → QuarantineResult → QuarantineResult
flag_macros ext r =
    if in_list macro_container_extensions ext
    then record r {
      actions = r.actions ++ "macro_container_flagged" ∷ [];
      active_content_flags = r.active_content_flags ++ String.◌++◌ "macro_container:" ext ∷ [];
      macros_blocked = true;
    }
    else r

module _ (to_lower : String → String) where
  -- name.lower().replace("\\", "/")
  abbrev pub normal_name : String → String
  normal_name name = forward_slashes (to_lower name)

  unfoldable pub quarantine_path_name : String → QuarantineResult
  unfolding extension
  quarantine_path_name name =
      let lower = normal_name name in
      let ext = extension lower in
      if in_list hard_executable_extensions ext
      then block (executable_extension ext) (String.◌++◌ "executable:" ext)
          "blocked_executable_entry" clean
      else (let r = flag_macros ext clean in
          if any (λ part. is_infix (codes part) (codes lower)) ooxml_macro_parts
          then record (block macro_payload "ooxml_macro_part" "blocked_macro_part" r) {
            macros_blocked = true;
          }
          else r)

  unfoldable pub quarantine_archive_entry : String → QuarantineResult
  unfolding quarantine_path_name
  quarantine_archive_entry name =
      let r = quarantine_path_name name in
      let ext = extension (normal_name name) in
      if r.blocked
      then r
      else if in_list archive_script_extensions ext
      then block (archive_script ext) (String.◌++◌ "archive_script:" ext) "blocked_archive_script" r
      else r

-- list(dict.fromkeys(xs))
unfoldable pub dedup_from : List String → List String → List String
dedup_from seen [] = seen
dedup_from seen (x ∷ xs) = dedup_from (if in_list seen x then seen else seen ++ x ∷ []) xs

abbrev pub dedup : List String → List String
dedup = dedup_from []

-- The body of the loop of `merge_quarantine`.
unfoldable pub merge_one : QuarantineResult → QuarantineResult → QuarantineResult
merge_one merged p = record {
  actions = merged.actions ++ p.actions;
  active_content_flags = merged.active_content_flags ++ p.active_content_flags;
  macros_blocked = merged.macros_blocked || p.macros_blocked;
  scripts_stripped = merged.scripts_stripped || p.scripts_stripped;
  blocked = merged.blocked || p.blocked;
  block_reason = if p.blocked && not merged.blocked then p.block_reason else merged.block_reason;
}

unfoldable pub merge_all : QuarantineResult → List QuarantineResult → QuarantineResult
merge_all merged [] = merged
merge_all merged (p ∷ ps) = merge_all (merge_one merged p) ps

unfoldable pub merge_quarantine : List QuarantineResult → QuarantineResult
unfolding merge_all merge_one dedup_from
merge_quarantine parts =
    let merged = merge_all clean parts in
    record merged {
      actions = dedup merged.actions;
      active_content_flags = dedup merged.active_content_flags;
    }
