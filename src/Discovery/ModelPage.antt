-- ===== src/Discovery/ModelPage.antt =====
-- discovery/model_page.py.
use Prim.Native.Char.{Char, code}
use Prim.Native.String
use Prim.Native.String.{String, [], ◌∷◌}
use mathlib.Core.List.{List, [], ◌∷◌, map}
use torque_finder.Prelude.{
  ℕ, zero, suc, ◌-◌, String, Bool, not, ◌&&◌, ◌||◌, Option, none, some, List, [], ◌∷◌,
  if◌then◌else◌, leb, ◌==◌, string_eq, nat_eq,
}
use torque_finder.Prelude.{Dict, get, put, nat_beq}
use torque_finder.Text.{len}
use torque_finder.Domain.Publications.{PublicationRef}

-- The rest of a text behind a prefix.
abbrev behind : String → String → Option String
behind [] text = some text
behind (p ∷ ps) [] = none
behind (p ∷ ps) (c ∷ s) = let rest = behind ps s in if nat_beq (code c) (code p) then rest else none

-- The longest prefix of characters of a class, and the rest.
abbrev span : (Char → Bool) → String → String × String
span p [] = ([], [])
span p (c ∷ s) = let rest = span p s in if p c then (c ∷ rest.0, rest.1) else ([], c ∷ s)

abbrev is_upper : Char → Bool
is_upper c = leb b'A' (code c) && leb (code c) b'Z'

abbrev is_letter : Char → Bool
is_letter c = is_upper c || leb b'a' (code c) && leb (code c) b'z'

abbrev is_digit : Char → Bool
is_digit c = leb b'0' (code c) && leb (code c) b'9'

-- The groups of a match of `_PUB_RE`, and the rest of the text. No other way to match has other
-- groups: each class ends where the next literal begins.
pub record Link : Type 0 where
  pub locale : String
  pub pub_id : String
  pub pub_type : String
  pub rest : String

-- `(?:/(?P<type>[A-Z]{2}))?`
abbrev typed_rest : String → String × String
typed_rest (s ∷ a ∷ b ∷ text) =
    if nat_beq (code s) b'/' && is_upper a && is_upper b
    then (a ∷ b ∷ [], text)
    else ([], s ∷ a ∷ b ∷ text)
typed_rest text = ([], text)

abbrev link_of : String → String × String → Option Link
link_of locale (pub_id, text) =
    if pub_id == ""
    then none
    else some record {
      locale = locale;
      pub_id = pub_id;
      pub_type = (typed_rest text).0;
      rest = (typed_rest text).1;
    }

abbrev locale_link : String × String → Option Link
locale_link (locale, text) = if locale == "" then none else elim (behind "/publications/" text) [
  | none ↦ none
  | some more ↦ link_of locale (span (λ c. is_letter c || is_digit c) more)
]

abbrev host_link : String → Option Link
host_link text = elim (behind "://docs.sram.com/" text) [
  | none ↦ none
  | some more ↦ locale_link (span (λ c. is_letter c || nat_beq (code c) b'-') more)
]

-- `_PUB_RE` at the start of a text.
abbrev link_at : String → Option Link
link_at text = elim (behind "https" text) [
  | some more ↦ host_link more
  | none ↦ elim (behind "http" text) [ none ↦ none | some more ↦ host_link more ]
]

-- `_PUB_RE.finditer(html)`: `skip` characters of the last match are still to leave out.
unfoldable pub find_links : ℕ → String → List Link
find_links skip [] = []
find_links (suc skip) (c ∷ s) = find_links skip s
find_links zero (c ∷ s) = elim (link_at (c ∷ s)) [
  | none ↦ find_links zero s
  | some link ↦ link ∷ find_links (len s - len link.rest) s
]

abbrev pub ref_of : Link → PublicationRef
ref_of link = record {
  pub_id = link.pub_id;
  pub_type = link.pub_type;
  source_url =
      String.◌++◌ "https://docs.sram.com/"
        (String.◌++◌ link.locale (String.◌++◌ "/publications/" link.pub_id));
}

-- A ref goes in if its id is new, or if it has a type and the ref that is there has none.
unfoldable pub prefer_typed :
    Dict String PublicationRef → PublicationRef → Dict String PublicationRef
prefer_typed found ref = elim (get found ref.pub_id) [
  | none ↦ put found ref.pub_id ref
  | some known ↦
      if not (ref.pub_type == "") && known.pub_type == "" then put found ref.pub_id ref else found
]

unfoldable pub collect :
    Dict String PublicationRef → List PublicationRef → Dict String PublicationRef
collect found [] = found
collect found (ref ∷ refs) = collect (prefer_typed found ref) refs

abbrev pub values : {K V : Type 0} → Dict K V → List V
values [] = []
values ((_, v) ∷ d) = v ∷ values d

-- `parse_publication_refs`. The list `order` of the source is that of the keys of `found`.
unfoldable pub parse_publication_refs : String → List PublicationRef
unfolding find_links collect prefer_typed get put
parse_publication_refs html = values (collect [] (map ref_of (find_links 0 html)))
