-- ===== src/Oauth/Grant.antt =====
-- Grants of internal/oauthserver/server.go: a pending request becomes an authorization code.
pub mod Commit
pub mod Effect
pub mod Invalid
use chat_with_cli.Base.{
  ℕ, ◌+◌, ◌*◌, Str, List, [], ◌∷◌, ◌⊎◌, inl, inr, Option, none, some, Bool, true, false, ◌&&◌, ◌||◌,
  not, any, is_empty, ltb, leb, ◌==◌, nat_eq, str_eq, trim_space, trim_prefix, has_prefix,
  if◌then◌else◌,
}
use chat_with_cli.Base.Map
use chat_with_cli.Oauth.Platform.{Platform}
use chat_with_cli.Oauth.State.{Server, Client, User, DeviceRecord, PendingAuth, AuthCode, minute}
use chat_with_cli.Oauth.Resource.{Parts, id_prefix, resource_parts}
use chat_with_cli.Oauth.Access.{client_id_matches}
use chat_with_cli.Oauth.Device.{ensure_device_record, display_name_hint}
use chat_with_cli.Oauth.Authorize.{Moment, is_agent, authorize_resource}
use chat_with_cli.Oauth.Snapshot.{Snapshot, snapshot, restore}
use chat_with_cli.Oauth.Persist.{Outcome, SaveError, save, save_or_rollback}

-- exactRedirect
unfoldable pub exact_redirect : Client → Str → Bool
exact_redirect client redirect = any (λ candidate. candidate == redirect) client.redirect_uris

pub data CommitError : Type 0 where
  expired client_invalid refused : CommitError

-- codeLifetime
abbrev pub code_lifetime : ℕ
code_lifetime = 5 * minute

-- What commitAuthorizationLocked returns beside the state.
abbrev pub Committed : Type 0
Committed = CommitError ⊎ (PendingAuth × Str)

module _ (lib : Platform) where
  hinted : Server → Str → Str → DeviceRecord → Server
  hinted s device hint r =
      if is_empty r.display_name
        || r.display_name == r.id
        || r.display_name == trim_prefix device id_prefix
      then record s {
        device_records = Map.put s.device_records device (record r { display_name = hint });
      }
      else s

  hint_device : Server → Str → Str → Str → Moment → Server
  unfolding hinted
  hint_device s user device [] m = s
  hint_device s user device (c ∷ hint) m =
      let (t, r) = ensure_device_record s device user m.device_id m.made in
      hinted t device (c ∷ hint) r

  -- A new device takes its name from the Agent's client.
  unfoldable pub name_device : Server → Str → Client → Option Parts → Moment → Server
  unfolding hint_device
  name_device s user client none m = s
  name_device s user client (some p) m =
      if is_agent p.kind then hint_device s user p.device (display_name_hint lib client) m else s

  unfoldable pub issue_code :
      Server → Str → Str → Client → PendingAuth → Moment → Server × Committed
  issue_code s request user client pending m =
      let granted = record pending { user_id = user } in
      (
        record s {
          pending = Map.remove s.pending request;
          codes =
              Map.put s.codes (lib.sha256_hex m.code)
                (record { grant = granted; expires = m.later + code_lifetime });
          clients = Map.put s.clients pending.client_id (record client { approved = true });
        },
        inr (granted, m.code),
      )

  commit_authorized :
      Server → Str → Str → Client → PendingAuth → Option Server → Moment → Server × Committed
  unfolding name_device issue_code
  commit_authorized s request user client pending none m = (s, inl refused)
  commit_authorized s request user client pending (some t) m =
      issue_code (name_device t user client (resource_parts lib t pending.resource) m) request user
        client pending m

  commit_client : Server → Str → Str → PendingAuth → Option Client → Moment → Server × Committed
  unfolding commit_authorized
  commit_client s request user pending none m = (s, inl client_invalid)
  commit_client s request user pending (some client) m =
      if not (client_id_matches pending.client_id client)
        || not (exact_redirect client pending.redirect_uri)
      then (s, inl client_invalid)
      else commit_authorized s request user client pending
          (authorize_resource lib s user pending.client_id pending.resource m) m

  commit_pending : Server → Str → Str → Option PendingAuth → Moment → Server × Committed
  unfolding commit_client
  commit_pending s request user none m = (s, inl expired)
  commit_pending s request user (some pending) m =
      if ltb pending.expires m.now
      then (s, inl expired)
      else commit_client s request user pending (Map.get s.clients pending.client_id) m

  -- commitAuthorizationLocked
  unfoldable pub commit_authorization : Server → Str → Str → Moment → Server × Committed
  unfolding commit_pending
  commit_authorization s request user m =
      commit_pending s request user (Map.get s.pending request) m

  -- The end of a refused grant: the state from before, without the request if its client is
  -- invalid.
  unfoldable pub refuse_grant : Server → Str → CommitError → Outcome → Server
  refuse_grant s request expired io = s
  refuse_grant s request refused io = s
  refuse_grant s request client_invalid io =
      (save (record s { pending = Map.remove s.pending request }) io).0

  unfoldable pub saved_grant :
      Server × Option SaveError → PendingAuth × Str → Server × Option (PendingAuth × Str)
  saved_grant (s, none) g = (s, some g)
  saved_grant (s, some e) g = (s, none)

  finish_grant : Snapshot → Str → Server × Committed → Outcome → Server × Option (PendingAuth × Str)
  unfolding refuse_grant saved_grant
  finish_grant old request (s, inl e) io = (refuse_grant (restore s old) request e io, none)
  finish_grant old request (s, inr g) io = saved_grant (save_or_rollback s old io) g

  -- grantAuthorization; `none` is an error.
  unfoldable pub grant_authorization :
      Server → Str → Str → Moment → Outcome → Server × Option (PendingAuth × Str)
  unfolding finish_grant commit_authorization
  grant_authorization s request user m io =
      finish_grant (snapshot s) request (commit_authorization s request user m) io

-- failAuthorization, which counts the failed sign-ins of a request.
count_failure : Server → Str → Option PendingAuth → Server × Option ℕ
count_failure s request none = (s, none)
count_failure s request (some p) =
    if leb 5 (p.attempts + 1)
    then (record s { pending = Map.remove s.pending request }, some (p.attempts + 1))
    else (
      record s { pending = Map.put s.pending request (record p { attempts = p.attempts + 1 }) },
      some (p.attempts + 1),
    )

unfoldable pub fail_authorization : Server → Str → Server × Option ℕ
unfolding count_failure
fail_authorization s request = count_failure s request (Map.get s.pending request)
