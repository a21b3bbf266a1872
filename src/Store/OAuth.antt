-- ===== src/Store/OAuth.antt =====
-- internal/store/oauth.go: the states of OAuth sign-ins, which are kept by their hash and can be
-- consumed once.
pub mod Once
use ad_agent.Prelude.{
  ℕ, ◌+◌, ◌*◌, String, ◌==◌, Bool, true, false, not, ◌&&◌, ◌||◌, Option, none, some, List, [], ◌∷◌,
  eqb, ltb, leb, is_some, if◌then◌else◌,
}
use ad_agent.Prelude.Text.{byte_length}
use ad_agent.Prelude.Result.{Result, Check, ok, err, ◌>>=◌, ◌>>◌, refuse}
use ad_agent.Store.Tables.{Faults, database_error}
use ad_agent.Store.Leases.{unix}

pub record OAuthIntent : Type 0 where
  pub connection_id : String
  pub redirect_url : String
  pub created_at : ℕ
  pub expires_at : ℕ

-- oauth_states(state_hash BLOB PRIMARY KEY, payload, expires_unix)
pub record OAuthRow : Type 0 where
  pub state_hash : String
  pub payload : OAuthIntent
  pub expires_unix : ℕ

-- net/url's parts of a URL that the code reads.
pub record RedirectUrl : Type 0 where
  pub scheme : String
  pub host : String
  pub hostname : String
  pub path : String
  pub raw_query : String
  pub fragment : String
  pub has_user : Bool

-- What the code takes from Go: SHA-256 of a text, url.Parse, and whether net.ParseIP reads a text as
-- a loopback address.
pub record OAuthLibrary : Type 0 where
  pub sha256 : String → String
  pub parse_redirect : String → Option RedirectUrl
  pub is_loopback_ip : String → Bool

abbrev pub oauth_state_error : String
oauth_state_error = "invalid, expired, or already used OAuth state"

abbrev pub fifteen_minutes : ℕ
fifteen_minutes = 900_000_000_000

unfoldable pub row_for : String → List OAuthRow → Option OAuthRow
row_for h [] = none
row_for h (r ∷ rows) = if r.state_hash == h then some r else row_for h rows

-- DELETE FROM oauth_states WHERE state_hash=?
unfoldable pub delete_state : String → List OAuthRow → List OAuthRow
delete_state h [] = []
delete_state h (r ∷ rows) =
    let rest = delete_state h rows in if r.state_hash == h then rest else r ∷ rest

module _ (lib : OAuthLibrary) where
  -- validOAuthRedirect
  unfoldable pub valid_oauth_redirect : RedirectUrl → Bool
  valid_oauth_redirect u =
      not (u.host == "" || not (u.path == "/"))
      && (u.scheme == "https"
          || u.scheme == "http" && (u.hostname == "localhost" || lib.is_loopback_ip u.hostname))

  pub bad_redirect : Option RedirectUrl → Bool
  unfolding valid_oauth_redirect
  bad_redirect none = true
  bad_redirect (some u) =
      not (valid_oauth_redirect u)
      || u.has_user
      || not (u.raw_query == "")
      || not (u.fragment == "")

  -- BeginOAuth, with the random state that was drawn; none is a failure of the random source.
  unfoldable pub begin_oauth :
      Faults
      → Option String
      → ℕ
      → String
      → String
      → ℕ
      → List OAuthRow
      → Result (String × List OAuthRow)
  unfolding bad_redirect
  begin_oauth f drawn now connection_id redirect_url ttl rows = do
    refuse (connection_id == "" || eqb ttl 0 || ltb fifteen_minutes ttl) "invalid OAuth intent"
    refuse (bad_redirect (lib.parse_redirect redirect_url))
        "OAuth redirect URL must be an exact HTTPS or loopback HTTP URL without query or fragment"
    state ← elim drawn [ none ↦ err "generate OAuth state" | some s ↦ ok s ]
    let hash = lib.sha256 state
    refuse (f.first || is_some (row_for hash rows)) database_error
    let intent : OAuthIntent = record {
      connection_id = connection_id;
      redirect_url = redirect_url;
      created_at = now;
      expires_at = now + ttl;
    }
    ok (
      state,
      record { state_hash = hash; payload = intent; expires_unix = unix (now + ttl) } ∷ rows,
    )

  -- The answer, from the row that has been deleted: the state is used up even when it has expired.
  abbrev pub answer : OAuthRow → ℕ → Result OAuthIntent
  answer r now = do
    refuse (leb (r.expires_unix * 1_000_000_000) now) oauth_state_error
    refuse (r.payload.connection_id == "") oauth_state_error
    ok r.payload

  -- The transaction of ConsumeOAuth: the row, and the table without it.
  take_state : Faults → String → List OAuthRow → Result (OAuthRow × List OAuthRow)
  take_state f h rows = do
    refuse (f.begin || f.first) database_error
    r ← elim (row_for h rows) [ none ↦ err oauth_state_error | some r ↦ ok r ]
    refuse (f.second || f.commit) database_error
    ok (r, delete_state h rows)

  finish :
      Result (OAuthRow × List OAuthRow) → ℕ → List OAuthRow → Result OAuthIntent × List OAuthRow
  finish (err e) now rows = (err e, rows)
  finish (ok (r, left)) now rows = (answer r now, left)

  -- ConsumeOAuth
  unfoldable pub consume_oauth :
      Faults → String → ℕ → List OAuthRow → Result OAuthIntent × List OAuthRow
  unfolding take_state finish
  consume_oauth f state now rows =
      if ltb (byte_length state) 40 || ltb 128 (byte_length state)
      then (err oauth_state_error, rows)
      else finish (take_state f (lib.sha256 state) rows) now rows
