-- ===== src/Tests/Inputs.antt =====
-- Schemas, connections, records and cached files.

use mathlib.Core.Option.{none-ne-some}
use citra_flows.Common.{
  ℕ, first, String, Bool, true, false, none, some, List, [], ◌∷◌, In, ◌≡◌, refl, arith, ◌==◌,
  if◌then◌else◌,
}
use citra_flows.Value.{
  Value, Fields, null, bool, str, arr, obj, nil, cons, end, field, get, get_default, put, update,
  truthy, lower,
}
use citra_flows.Executor.State.{NodeContext}
use citra_flows.Logic.{Python, text_of}
use citra_flows.Triggers.{
  Casts, SchemaField, read_field, dict_fields, fields_of_list, fields_of_value,
  coerce_schema_fields, is_yes, given, cast_input, check_value, check_field, check_fields, input_of,
  start_with, execute_start,
}
use citra_flows.Triggers.Passed.{Complete, execute_start-Complete}
use citra_flows.Connections.{
  Profile, Request, Crypto, get_or, database, typed_result, result_of, resolve_profile,
  resolve_connection,
}
use citra_flows.Connections.Isolated.{Permitted, resolve_connection-Permitted}
use citra_flows.Dedup.{
  Dumps, split_commas, trim, keys_of, present, key_for, index_at, set_at, place_record, scan_record,
  scan, deduplicated,
}
use citra_flows.Dedup.First.{firsts, deduplicated-firsts}
use citra_flows.FileCache.{
  removed, File, Disk, Answers, find_file, insert_file, sort_files, evict_from, evict_if_oversize,
  get_or_download,
}
use citra_flows.FileCache.Current.{Serves, get_or_download-current}
use citra_flows.FileCache.Evicted.{Least, IsSortOf, evict_if_oversize-Least}

abbrev python : Python
python = record {
  repr = λ v. "";
  above = λ v w. some false;
  int_of = λ v. none;
  iterate = λ v. none;
  loads = λ s. none;
}

abbrev casts : Casts
casts = record { python = python; float_of = λ v. none }

-- A schema with one required flag.
abbrev agree_field : Fields
agree_field =
    field "name" (str "agree") (field "type" (str "boolean") (field "required" (bool true) end))

abbrev context : Bool → NodeContext
context b = record {
  node_id = "n";
  config = field "input_schema" (arr (cons (obj agree_field) nil)) end;
  input_data = obj (field "agree" (bool b) end);
  variables = end;
  workflow_context = none;
}

abbrev agree : SchemaField
agree = record {
  name = "agree";
  field_type = "boolean";
  required = bool true;
  default_value = null;
}

execute_start-Complete_example : Complete "agree" end (record {
  items = cons (obj (field "agree" (bool true) end)) nil;
  variables = field "agree" (bool true) end;
})
unfolding coerce_schema_fields fields_of_value fields_of_list dict_fields read_field get get_default
    truthy execute_start start_with input_of check_fields check_field check_value cast_input given
    is_yes text_of lower put update
execute_start-Complete_example =
    execute_start-Complete casts (context true) agree _ (λ v w e. absurd (cc)) (refl, tt)
      (In.here refl) refl refl refl

abbrev crypto : Crypto
crypto = record { decrypt = λ d. d; database_of = λ v. "db" }

abbrev warehouse : Profile
warehouse = record {
  connection_id = "c";
  org_id = "acme";
  owner_id = "sa1";
  connection_type = "mongo";
  test = field "connection_string" (str "mongodb://h/db") end;
  prod = end;
}

abbrev request : Request
request = record { org_id = "acme"; owner_id = "acme"; owner_type = "org"; environment = "staging" }

resolve_connection-Permitted_example :
    Permitted crypto request "c"
      (warehouse ∷ [])
      (field "connection_string" (str "mongodb://h/db") (field "database" (str "db") end))
unfolding resolve_connection resolve_profile result_of typed_result database get_or get get_default
    truthy update first
resolve_connection-Permitted_example =
    resolve_connection-Permitted crypto request "c" (warehouse ∷ []) _ refl

abbrev dumps : Dumps
dumps = record { python = python; dumps = λ v. text_of python v }

abbrev person : String → String → Value
person email name = obj (field "email" (str email) (field "name" (str name) end))

deduplicated-firsts_example :
    deduplicated dumps ("email" ∷ []) false (person "a" "A" ∷ person "b" "B" ∷ person "a" "C" ∷ [])
    ≡ firsts dumps ("email" ∷ []) [] (person "a" "A" ∷ person "b" "B" ∷ person "a" "C" ∷ [])
deduplicated-firsts_example =
    deduplicated-firsts dumps ("email" ∷ []) (person "a" "A" ∷ person "b" "B" ∷ person "a" "C" ∷ [])

-- Keeping the last, a later record takes the place of the first.
last_wins :
    deduplicated dumps ("email" ∷ []) true (person "a" "A" ∷ person "b" "B" ∷ person "a" "C" ∷ [])
    ≡ person "a" "C" ∷ person "b" "B" ∷ []
unfolding scan scan_record place_record key_for present index_at set_at get text_of
last_wins = refl

key_names : keys_of python (str " email , ,name") ≡ "email" ∷ "name" ∷ []
unfolding keys_of split_commas trim text_of
key_names = refl

abbrev cached : String → ℕ → File
cached path atime = record { path = path; content = 1 ∷ 2 ∷ 3 ∷ []; atime = atime }

abbrev three_files : List File
three_files = cached "a" 5 ∷ cached "b" 2 ∷ cached "c" 9 ∷ []

evict_if_oversize-Least_example :
    IsSortOf three_files (sort_files three_files)
    × Least 6 (sort_files three_files) (evict_if_oversize 6 (λ p. removed) three_files)
evict_if_oversize-Least_example =
    evict_if_oversize-Least 6 (λ p. removed) three_files (λ p. refl) (omega arith)

oldest_gone : evict_if_oversize 6 (λ p. removed) three_files ≡ cached "a" 5 ∷ cached "c" 9 ∷ []
unfolding evict_if_oversize evict_from sort_files insert_file
oldest_gone = refl

abbrev bytes_of : String → List ℕ
bytes_of e = if e == "e1" then 1 ∷ 2 ∷ 3 ∷ [] else 4 ∷ []

abbrev disk : Disk
disk = record { bins = []; metas = [] }

abbrev answers : Answers
answers = record {
  head = some "e1";
  body = some (1 ∷ 2 ∷ 3 ∷ []);
  fallback_writes = true;
  bin_writes = true;
  meta_writes = true;
  now = 7;
}

get_or_download-current_example : Serves bytes_of (bytes_of "e1") (get_or_download answers "a" disk)
unfolding find_file
get_or_download-current_example =
    get_or_download-current bytes_of answers "a" "e1" disk
      (λ path m f em ef ne le. absurd (no_file path f ef)) refl refl refl refl
  where
    no_file : (path : String) (f : File) → find_file path [] ≡ some f → ⊥
    no_file path f e = none-ne-some _ e
