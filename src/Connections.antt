-- ===== src/Connections.antt =====
-- `resolve_connection` of citra_workflow/connection_resolver.py. Mongo is the list of documents of
-- WorkflowConnections; the decryption and the URL parser are parameters.
pub mod Isolated
use citra_flows.Common.{
  String, Bool, true, false, not, ◌&&◌, ◌||◌, Option, none, some, List, [], ◌∷◌, first,
  if◌then◌else◌, ◌==◌,
}
use citra_flows.Value.{
  ℤ, pos, Value, Fields, null, int, str, obj, end, field, get, get_default, put, update, nonempty,
  truthy,
}

-- A document, with `none` for a configuration that it has not; a text that it has not is empty.
pub record Profile : Type 0 where
  pub connection_id : String
  pub org_id : String
  pub owner_id : String
  pub connection_type : String
  pub test : Fields
  pub prod : Fields

-- The owner of the workflow that runs, and the environment that it asks for.
pub record Request : Type 0 where
  pub org_id : String
  pub owner_id : String
  pub owner_type : String
  pub environment : String

-- `decrypt_env_config`, and the path of a URL without its leading slashes and query.
pub record Crypto : Type 0 where
  pub decrypt : Fields → Fields
  pub database_of : Value → String

-- Why no connection is given.
pub data Denied : Type 0 where
  not_found other_tenant other_account : Denied
  no_config : String → Denied

pub data Resolved : Type 0 where
  denied : Denied → Resolved
  resolved : Fields → Resolved

-- `d.get(k) or v`.
unfoldable pub get_or : String → Value → Fields → Value
get_or k v d = let w = get_default k null d in if truthy w then w else v

abbrev blank : Value
blank = str ""

-- The database of a Mongo connection: the one that is stored, or that of the URI.
unfoldable pub database : Crypto → Fields → Value
database cr d =
    let name = get_or "database" blank d in
    let uri = get_or "connection_string" blank d in
    if not (truthy name) && truthy uri then str (cr.database_of uri) else name

unfoldable pub bucket_result : Fields → Fields
bucket_result d =
    let bucket = get_or "bucket" blank d in
    let region = get_or "region" (str "us-east-1") d in
    let access = get_or "access_key_id" blank d in
    let secret = get_or "secret_access_key" blank d in
    field "bucket_name" bucket (
      field "bucket" bucket (
        field "aws_region" region (
          field "region" region (
            field "aws_access_key_id" access (
              field "access_key_id" access (
                field "aws_secret_access_key" secret (
                  field "secret_access_key" secret
                    (field "endpoint_url" (get_or "endpoint_url" blank d) end))))))))

unfoldable pub sftp_result : Fields → Fields
sftp_result d = field "host" (get_or "host" blank d) (
    field "port" (get_or "port" (int (pos 22)) d) (
      field "username" (get_or "username" blank d) (
        field "password" (get_or "password" blank d) (
          field "private_key" (get_or "private_key" blank d)
            (field "protocol" (get_or "protocol" (str "sftp") d) end)))))

unfoldable pub smtp_result : Fields → Fields
smtp_result d = field "host" (get_or "host" (str "smtp.gmail.com") d) (
    field "port" (get_or "port" (int (pos 587)) d) (
      field "username" (get_or "username" blank d) (
        field "password" (get_or "password" blank d)
          (field "from_address" (get_or "from_address" (get_or "username" blank d) d) end))))

-- The result of each type of connection; an unknown type gives none of its own.
unfoldable pub typed_result : Crypto → String → Fields → Fields
typed_result cr t d =
    if t == "sql"
    then field "connection_string" (get_or "connection_string" blank d) end
    else if t == "mongo"
    then field "connection_string" (get_or "connection_string" blank d)
        (field "database" (database cr d) end)
    else if t == "api"
    then field "url" (get_or "url" blank d) (field "headers" (get_or "headers" (obj end) d) end)
    else if t == "bucket"
    then bucket_result d
    else if t == "sftp"
    then sftp_result d
    else if t == "smtp"
    then smtp_result d
    else end

-- `decrypted.get("extra", {})`, which is a dict.
abbrev pub extra_of : Fields → Fields
extra_of d = elim (get "extra" d) [ some (obj e) ↦ e | v ↦ end ]

unfoldable pub result_of : Crypto → Profile → Fields → Fields
result_of cr p d = update (typed_result cr p.connection_type d) (extra_of d)

abbrev pub env_key : Request → String
env_key q = if q.environment == "prod" then "prod" else "test"

abbrev pub config_of : Request → Profile → Fields
config_of q p = if env_key q == "prod" then p.prod else p.test

-- The connection's tenant is that of the workflow.
abbrev pub is_same_tenant : Request → Profile → Bool
is_same_tenant q p = not (q.org_id == "") && p.org_id == q.org_id

-- A workflow of a service account may not use the connection of another.
abbrev pub is_foreign : Request → Profile → Bool
is_foreign q p =
    q.owner_type == "service_account"
    && not (q.owner_id == "")
    && not (p.owner_id == "")
    && not (p.owner_id == q.owner_id)

unfoldable pub resolve_profile : Crypto → Request → Option Profile → Resolved
resolve_profile cr q none = denied not_found
resolve_profile cr q (some p) =
    if not (is_same_tenant q p)
    then denied other_tenant
    else if is_foreign q p
    then denied other_account
    else if not (nonempty (config_of q p))
    then denied (no_config (env_key q))
    else resolved (result_of cr p (cr.decrypt (config_of q p)))

abbrev pub has_connection_id : String → Profile → Bool
has_connection_id id p = p.connection_id == id

unfoldable pub resolve_connection : Crypto → Request → String → List Profile → Resolved
resolve_connection cr q id profiles = resolve_profile cr q (first (has_connection_id id) profiles)
