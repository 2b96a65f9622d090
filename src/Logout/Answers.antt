-- ===== src/Logout/Answers.antt =====
-- What a logout ends, and where it may send the browser.
use autentico.Prelude.{
  String, ◌≡◌, ap, sym, ◌∙◌, true, false, some, arith, is_empty, member, Option-cases, Bool-cases,
  inl, inr,
}
use autentico.Schema.{Client, Db}
use autentico.Env.{Env, IdTokenHint, Healthy, query, select_client}
use autentico.Exec.{ok, ◌>>◌}
use autentico.Exec.Inversion.{bind-ok}
use autentico.Sql.{find_row}
use autentico.Client.{client_by_client_id, get_post_logout_redirect_uris, is_registered}
use autentico.IdpSession.{deactivate_with_cascade}
use autentico.IdpSession.Cascade.{cascaded}
use autentico.Cleanup.Sweep.{cascade-runs}
use autentico.Logout.{
  rp_initiated_logout, leave, end_browser, redirect, mismatched, parse_id_token_hint,
  resolved_client_id, target,
}

-- A redirect goes to a URI that an active registered client has listed.
pub record IsAllowed (env : Env) (uri state client_id to : String) (db : Db) : Type 0 where
  pub client : Client
  pub registered : find_row (is_registered client_id) db.clients ≡ some client
  pub listed : member uri (get_post_logout_redirect_uris env client) ≡ true
  pub exact : to ≡ target uri state

leave-IsAllowed :
    (env : Env) (uri state client_id to : String) (db db' : Db)
    → leave env uri state client_id db ≡ (ok (redirect to), db')
    → IsAllowed env uri state client_id to db
unfolding leave client_by_client_id query
leave-IsAllowed env uri state client_id to db db' h =
    elim (Option-cases (find_row (is_registered client_id) db.clients)) [
      | inl missing ↦ absurd (ground arith)
      | inr (c, row) ↦ record {
        client = c;
        registered = row;
        listed = ground arith;
        exact = ground arith;
      }
    ]

end_browser-clients :
    (env : Env) (cookie : String) (db db' : Db)
    → end_browser env cookie db ≡ (ok tt, db')
    → db'.clients ≡ db.clients
unfolding end_browser deactivate_with_cascade autentico.IdpSession.cascade autentico.Env.exec
end_browser-clients env cookie db db' h = ground arith

-- If a logout redirects the browser, then the client that the request or the hint names is
-- registered and active, has listed exactly the requested URI, and the redirect goes to that URI,
-- followed by the state if there is one.
pub logout-IsAllowed :
    (env : Env) (cookie hint uri state client_id to : String) (db db' : Db)
    → rp_initiated_logout env cookie hint uri state client_id db ≡ (ok (redirect to), db')
    → IsAllowed env uri state (resolved_client_id client_id (parse_id_token_hint env hint)) to db
unfolding rp_initiated_logout
logout-IsAllowed env cookie hint uri state client_id to db db' h =
    elim (Bool-cases (mismatched client_id (parse_id_token_hint env hint))) [
      | inl other_client ↦ absurd (ground arith)
      | inr same_client ↦
          let id = resolved_client_id client_id (parse_id_token_hint env hint) in
          let run : (end_browser env cookie >> leave env uri state id) db
              ≡ (ok (redirect to), db') =
            ground arith in
          let (_, db1, h1, rest) =
            bind-ok (end_browser env cookie) (λ _. leave env uri state id) db (redirect to) db'
              run in
          let a = leave-IsAllowed env uri state id to db1 db' rest in
          record {
            client = a.client;
            registered =
                ap (find_row (is_registered id)) (sym (end_browser-clients env cookie db db1 h1))
                ∙ a.registered;
            listed = a.listed;
            exact = a.exact;
          }
    ]

leave-unchanged :
    (env : Env) (uri state client_id : String) (db : Db) → (leave env uri state client_id db).1 ≡ db
unfolding leave client_by_client_id query
leave-unchanged env uri state client_id db = ground arith

-- With a database that refuses no statement, a logout whose client and hint do not contradict one
-- another ends the single sign-on session of the browser's cookie with all that was born from it,
-- whatever redirect was asked for.
pub logout-cascaded :
    (env : Env) (cookie hint uri state client_id : String) (db : Db)
    → Healthy env
    → is_empty cookie ≡ false
    → mismatched client_id (parse_id_token_hint env hint) ≡ false
    → (rp_initiated_logout env cookie hint uri state client_id db).1 ≡ cascaded env cookie db
unfolding rp_initiated_logout end_browser
logout-cascaded env cookie hint uri state client_id db healthy signed_in same =
    let id = resolved_client_id client_id (parse_id_token_hint env hint) in
    ground (
      arith,
      same,
      cascade-runs env cookie db healthy signed_in,
      leave-unchanged env uri state id (cascaded env cookie db),
    )
