-- ===== src/Argocd/Api.antt =====
-- internal/argocd/api.go: APIClient. The HTTP client and json.Marshal are parameters; the bearer of a
-- context is "" where the context carries none.
use inari_agent.Prelude.{
  ℕ, zero, suc, Str, codes, Bool, ◌&&◌, if◌then◌else◌, Option, none, some, Outcome, ok, err, [],
  ◌∷◌, ◌++◌, leb, ◌==◌, is_empty, trim_space,
}
use inari_agent.Prelude.Effect.{Effect, pure, stop, lift, ◌>>=◌}
use inari_agent.Prelude.Docs.{text, flag, number, Fields, end, field, set_field}

pub record ApiRequest : Type 0 where
  pub method : Str
  pub url : Str
  pub authorization : Option Str
  pub content_type : Option Str
  pub payload : Option Str

pub record ApiResponse : Type 0 where
  pub status_code : ℕ
  pub status : Str
  pub payload : Str

-- `http` is NewRequest with Do; `marshal` is json.Marshal of a map.
pub record ApiClient (W : Type 0) : Type 0 where
  pub base_url : Str
  pub token : Str
  pub http : ApiRequest → Effect W Str ApiResponse
  pub marshal : Fields → Outcome Str Str

-- strings.TrimSuffix(s, "/")
unfoldable pub without_slash : Str → Str
without_slash [] = []
without_slash (c ∷ s) =
    let rest = without_slash s in if is_empty s && c == b'/' then [] else c ∷ rest

-- The first `n` bytes of a reader.
unfoldable pub limited : ℕ → Str → Str
limited zero s = []
limited (suc n) [] = []
limited (suc n) (c ∷ s) = c ∷ limited n s

-- The Authorization of a request: the user's bearer where there is one, the agent's token else.
unfoldable pub authorization_for : Str → Str → Option Str
authorization_for token bearer =
    let used = if is_empty bearer then token else bearer in
    if is_empty used then none else some (codes "Bearer " ++ used)

-- for k, v := range params { payload[k] = v }
unfoldable pub with_fields : Fields → Fields → Fields
with_fields end payload = payload
with_fields (field k d more) payload = with_fields more (set_field k d payload)

abbrev pub application_path : Str → Str → Str
application_path name rest = codes "/api/v1/applications/" ++ (name ++ rest)

module _ {W : Type 0} (c : ApiClient W) (bearer : Str) where
  -- json.Marshal of the body, if there is one.
  unfoldable pub body_of : Option Fields → Outcome Str (Option Str)
  body_of none = ok none
  body_of (some fs) = elim (c.marshal fs) [ err e ↦ err e | ok raw ↦ ok (some raw) ]

  -- The answer to a response: an error from status 300 on.
  unfoldable pub answer_of : Str → Str → ApiResponse → Effect W Str (Unit {0})
  answer_of method path resp =
      if leb 300 resp.status_code
      then stop (
          codes "argocd api "
          ++ (method
              ++ (b' '
                  ∷ (path
                      ++ (codes ": "
                          ++ (resp.status
                              ++ (codes ": " ++ trim_space (limited 4096 resp.payload))))))))
      else pure tt

  -- do
  unfoldable pub call_api : Str → Str → Option Fields → Effect W Str (Unit {0})
  unfolding body_of without_slash authorization_for answer_of
  call_api method path body = do
    raw ← lift (body_of body)
    resp ← c.http (record {
      method = method;
      url = without_slash c.base_url ++ path;
      authorization = authorization_for c.token bearer;
      content_type = elim raw [ none ↦ none | some s ↦ some (codes "application/json") ];
      payload = raw;
    })
    answer_of method path resp

  -- Sync
  unfoldable pub sync : Str → Fields → Effect W Str (Unit {0})
  unfolding call_api with_fields
  sync name params =
      call_api (codes "POST") (application_path name (codes "/sync"))
        (some (with_fields params (field (codes "name") (text name) end)))

  -- Refresh
  unfoldable pub refresh : Str → Bool → Effect W Str (Unit {0})
  unfolding call_api
  refresh name hard =
      call_api (codes "GET")
        (application_path name
          (codes "?refresh=" ++ (if hard then codes "hard" else codes "normal")))
        none

  -- Rollback
  unfoldable pub rollback : Str → Str → Bool → Effect W Str (Unit {0})
  unfolding call_api
  rollback name id dry_run = call_api (codes "POST") (application_path name (codes "/rollback")) (
      some (
        field (codes "name") (text name)
          (field (codes "id") (number id) (field (codes "dryRun") (flag dry_run) end))))
