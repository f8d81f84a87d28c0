-- ===== src/Tests/Documents.antt =====
-- JSON documents as trees, for the tests: what the library's functions return on them.
use can_monitor.Base.{
  ℕ, zero, suc, ◌+◌, [], ◌∷◌, Bytes, Option, none, some, codes, str_eq, if◌then◌else◌,
}
use can_monitor.Service.Json.{Json}

pub data Document : Type 0 where
  text : Bytes → Document
  double : ℕ → Document
  object array : Document
  member : Bytes → Document → Document → Document
  item : Document → Document → Document

abbrev pub lookup : Bytes → Document → Option Document
lookup key (member k v rest) = if str_eq k key then some v else lookup key rest
lookup key _ = none

abbrev pub count_items : Document → ℕ
count_items (item d rest) = count_items rest + 1
count_items _ = 0

abbrev pub item_at : Document → ℕ → Option Document
item_at (item d rest) zero = some d
item_at (item d rest) (suc i) = item_at rest i
item_at _ i = none

abbrev pub text_in : Option Document → Option Bytes
text_in (some (text s)) = some s
text_in _ = none

abbrev pub double_in : Option Document → ℕ
double_in (some (double n)) = n
double_in _ = 0

abbrev pub under : Option Document → Bytes → Option Document
under none key = none
under (some d) key = lookup key d

-- Every text but the empty one is parsed as the given document.
abbrev pub json_of : Document → Json
json_of document = record {
  Value = Document;
  Object = Document;
  Array = Document;
  Number = ℕ;
  json_parse_string = λ s. elim s [ [] ↦ none | _ ∷ _ ↦ some document ];
  json_value_get_object = λ v. v;
  json_object_get_value = under;
  json_object_get_string = λ o key. text_in (under o key);
  json_object_get_number = λ o key. double_in (under o key);
  json_object_get_array = under;
  json_array_get_count = λ a. elim a [ none ↦ 0 | some d ↦ count_items d ];
  json_array_get_value = λ a i. elim a [ none ↦ none | some d ↦ item_at d i ];
  json_value_init_object = object;
  json_value_init_array = array;
  json_object_set_string = λ o key s. member key (text s) o;
  json_object_set_number = λ o key n. member key (double n) o;
  json_object_set_value = λ o key v. member key v o;
  json_array_append_value = λ a v. item v a;
  json_serialize_to_string = λ v. codes "{}";
  to_int = λ n. n;
  to_uint32 = λ n. n;
  of_int = λ n. n;
  of_unsigned = λ n. n;
}
