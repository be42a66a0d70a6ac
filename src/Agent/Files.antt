-- ===== src/Agent/Files.antt =====
-- agent_context.py: `update_known_file_state`, the hashes of the files that the run has seen, and the one
-- that it works on.

use sisyphus_harness.Prelude.{
  String, Bool, true, false, not, ◌||◌, Option, none, some, List, [], ◌∷◌, ◌==◌, if◌then◌else◌, ltb,
  eqb,
}
use sisyphus_harness.Prelude.Text.{characters, first_characters, join_text}
use sisyphus_harness.Contracts.Json.{
  Json, text, boolean, array, Items, nil, item, Fields, end, field,
}
use sisyphus_harness.Agent.{Outside}

-- A Python dict from texts: an association list in the order of insertion.
abbrev pub Dict : Type 0 → Type 0
Dict A = List (String × A)

module _ {A : Type 0} where
  unfoldable pub get : String → Dict A → Option A
  get key [] = none
  get key ((k, v) ∷ rest) = if k == key then some v else get key rest

  -- `d[key] = value` keeps the place of a key that is there.
  unfoldable pub put : String → A → Dict A → Dict A
  put key value [] = (key, value) ∷ []
  put key value ((k, v) ∷ rest) =
      if k == key then (k, value) ∷ rest else (k, v) ∷ put key value rest

  -- `d.pop(key, None)`
  unfoldable pub remove : String → Dict A → Dict A
  remove key [] = []
  remove key ((k, v) ∷ rest) = if k == key then rest else (k, v) ∷ remove key rest

unfoldable pub field_of : String → Fields → Option Json
field_of key end = none
field_of key (field k v rest) = if k == key then some v else field_of key rest

-- The value of a field where it is a text.
abbrev pub as_text : Option Json → Option String
as_text (some (text s)) = some s
as_text _ = none

pub record WorkingFile : Type 0 where
  pub path : String
  pub sha256 : String
  pub content : Option String
  pub content_truncated : Bool

abbrev pub cons_text : Json → Option (List String) → Option (List String)
cons_text (text s) (some rest) = some (s ∷ rest)
cons_text _ _ = none

unfoldable pub texts_of : Items → Option (List String)
texts_of nil = some []
texts_of (item v rest) = cons_text v (texts_of rest)

-- `"\n".join(lines)`
unfoldable pub join_lines : List String → String
unfolding join_text
join_lines [] = ""
join_lines (s ∷ []) = s
join_lines (s ∷ t ∷ rest) = join_text s (join_text "\n" (join_lines (t ∷ rest)))

abbrev pub lines_text : Option Json → Option String
lines_text (some (array items)) = elim (texts_of items) [
  | none ↦ none
  | some l ↦ some (join_lines l)
]
lines_text _ = none

-- `_argument_text`
unfoldable pub argument_text : Fields → String → String → Option String
unfolding field_of texts_of join_lines
argument_text arguments text_field lines_field = elim (as_text (field_of text_field arguments)) [
  | some s ↦ some s
  | none ↦ lines_text (field_of lines_field arguments)
]

abbrev pub path_of : Fields → Fields → Option String
path_of arguments output = elim (as_text (field_of "path" output)) [
  | some path ↦ some path
  | none ↦ as_text (field_of "path" arguments)
]

abbrev pub is_true : Option Json → Bool
is_true (some (boolean true)) = true
is_true _ = false

-- The text of `replace_text` on the working file, where it is whole and holds the old text once.
unfoldable pub replaced : Outside → Option WorkingFile → String → Fields → Option String
unfolding argument_text
replaced outside none path arguments = none
replaced outside (some w) path arguments =
    if not (w.path == path) || w.content_truncated then none else elim w.content [
      | none ↦ none
      | some current ↦ elim (argument_text arguments "old" "old_lines") [
        | none ↦ none
        | some old ↦ elim (argument_text arguments "new" "new_lines") [
          | none ↦ none
          | some new ↦
              if eqb (outside.occurrences old current) 1
              then some (outside.replace_first old new current)
              else none
        ]
      ]
    ]

-- The content that the tool leaves, where it is known, and whether it is truncated.
unfoldable pub content_after :
    Outside → Option WorkingFile → String → String → Fields → Fields → Option String × Bool
unfolding replaced argument_text field_of
content_after outside working name path arguments output =
    if name == "read_file"
    then elim (as_text (field_of "content" output)) [
      | none ↦ (none, false)
      | some s ↦ (some s, is_true (field_of "truncated" output))
    ]
    else if name == "write_file"
    then (argument_text arguments "content" "content_lines", false)
    else if name == "replace_text"
    then (replaced outside working path arguments, false)
    else (none, false)

-- A content of more than 4000 characters is cut.
unfoldable pub working_file_of : String → String → Option String × Bool → WorkingFile
unfolding characters first_characters
working_file_of path digest (none, truncated) = record {
  path = path;
  sha256 = digest;
  content = none;
  content_truncated = true;
}
working_file_of path digest (some s, truncated) =
    if ltb 4000 (characters s)
    then record {
      path = path;
      sha256 = digest;
      content = some (first_characters 4000 s);
      content_truncated = true;
    }
    else record { path = path; sha256 = digest; content = some s; content_truncated = truncated }

-- `update_known_file_state`, with the dict `known` that it changes.
unfoldable pub update_known_file_state :
    Outside
    → Dict String
    → Option WorkingFile
    → String
    → Fields
    → Fields
    → Dict String × Option WorkingFile
unfolding get put remove field_of content_after working_file_of
update_known_file_state outside known working name arguments output =
    elim (path_of arguments output) [
      | none ↦ (known, working)
      | some path ↦
          if name == "delete_file"
          then (
            remove path known,
            elim working [ none ↦ none | some w ↦ if w.path == path then none else some w ],
          )
          else if name == "read_file" || name == "write_file" || name == "replace_text"
          then elim (as_text (field_of "sha256" output)) [
            | none ↦ (known, working)
            | some digest ↦ (
              put path digest known,
              some (
                  working_file_of path digest
                    (content_after outside working name path arguments output)),
            )
          ]
          else (known, working)
    ]
