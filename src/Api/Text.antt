-- ===== src/Api/Text.antt =====
-- The labels of api/routes/query.py.
use Prim.Native.Char.{code}
use Prim.Native.String.{String, [], ◌∷◌}
use torque_finder.Text.{clip}
use torque_finder.Prelude.{ℕ, if◌then◌else◌, nat_beq, ◌==◌, string_eq}
use torque_finder.Text.Regex.{CharTables}
use torque_finder.Extraction.Parse.{strip}

-- `s.split("\n", 1)[0]`
abbrev pub first_line : String → String
first_line [] = []
first_line (c ∷ s) = let rest = first_line s in if nat_beq (code c) 10 then "" else c ∷ rest

-- `_LABEL_MAX_CHARS`
abbrev pub label_max_chars : ℕ
label_max_chars = 80

-- `_html_label`
unfoldable pub html_label : ⦃u : CharTables⦄ → (module_text document_title : String) → String
html_label module_text document_title =
    let line = strip (first_line (strip module_text)) in
    clip label_max_chars (if line == "" then document_title else line)
