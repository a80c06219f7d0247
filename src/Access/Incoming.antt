-- ===== src/Access/Incoming.antt =====
-- libs/rbac/src/guards/org-context.guard.ts: the organization that a request names. `uuid_of` is how
-- the database reads the text of a UUID.
use Prim.Native.Char.{code}
use saas_backend_blueprint.Prelude.{
  ℕ, suc, zero, String, str_eq, Bool, true, false, ◌&&◌, ◌||◌, ◌==◌, leb, List, [], ◌∷◌, Option,
  none, some, Result, ok, err, bad_request, if◌then◌else◌,
}
use saas_backend_blueprint.Members.Model.{Uuid}

-- `string | string[] | undefined`
pub data Value : Type 0 where
  absent : Value
  one : String → Value
  many : List String → Value

abbrev pub to_single_string : Value → Option String
to_single_string absent = none
to_single_string (one s) = some s
to_single_string (many []) = none
to_single_string (many (s ∷ ss)) = some s

abbrev pub codes : String → List ℕ
codes String.[] = []
codes (String.◌∷◌ c s) = code c ∷ codes s

-- `[0-9a-f]` with the flag i
abbrev is_hex : ℕ → Bool
is_hex c = leb b'0' c && leb c b'9' || leb b'a' c && leb c b'f' || leb b'A' c && leb c b'F'

-- The groups of digits, each followed by a dash but the last; `n` digits are due in this group.
hex_groups : ℕ → List ℕ → List ℕ → Bool
hex_groups zero [] [] = true
hex_groups zero (g ∷ gs) (c ∷ cs) = c == b'-' && hex_groups g gs cs
hex_groups (suc n) gs (c ∷ cs) = is_hex c && hex_groups n gs cs
hex_groups _ _ _ = false

unfoldable pub is_valid_uuid : String → Bool
unfolding hex_groups
is_valid_uuid s = hex_groups 8 (4 ∷ 4 ∷ 4 ∷ 12 ∷ []) (codes s)

-- `a ?? b`
abbrev pub or_else {ℓ} : {A : Type ℓ} → Option A → Option A → Option A
or_else none o = o
or_else (some a) o = some a

-- What the guard reads of the request: the token's claims and the places of an organization's id.
pub record Claims : Type 0 where
  pub sub : String
  pub email : Option String

pub record Incoming : Type 0 where
  pub user : Option Claims
  pub params_org_id : Value
  pub params_id : Value
  pub query_org_id : Value
  pub body_org_id : Value
  pub header_org_id : Value

abbrev pub raw_org_id : Bool → Incoming → Option String
raw_org_id is_org_scoped i = or_else (to_single_string i.params_org_id) (
    or_else (if is_org_scoped then to_single_string i.params_id else none) (
      or_else (to_single_string i.query_org_id)
        (or_else (to_single_string i.body_org_id) (to_single_string i.header_org_id))))

-- The organization that the request names, if any: `!rawOrgId` and the UUID check, with their errors.
unfoldable pub named_org : (String → Uuid) → Bool → Incoming → Result (Option Uuid)
named_org uuid_of is_org_scoped i = elim (raw_org_id is_org_scoped i) [
  | none ↦ if is_org_scoped then err (bad_request "Organization ID is required") else ok none
  | some raw ↦
      if str_eq raw ""
      then (if is_org_scoped then err (bad_request "Organization ID is required") else ok none)
      else if is_valid_uuid raw
      then ok (some (uuid_of raw))
      else if is_org_scoped
      then err (bad_request "Organization ID must be a valid UUID")
      else ok none
]
