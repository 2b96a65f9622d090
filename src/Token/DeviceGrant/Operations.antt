-- ===== src/Token/DeviceGrant/Operations.antt =====
-- The device codes under any sequence of operations.
use autentico.Prelude.{String, List, [], ◌∷◌}
use autentico.Schema.{DeviceCode, Db}
use autentico.Env.{Env}
use autentico.Exec.Within.{Within, within_rules}
use autentico.DeviceCode.{
  device_code_by_code, create_device_code, authorize_device_code, deny_device_code,
}
use autentico.DeviceCode.States.{
  Lives, Lives-preorder, consume_device_code-Lives, increment_polling_interval-Lives,
  update_last_polled_at-Lives, authorize_device_code-Lives, deny_device_code-Lives,
  create_device_code-Lives,
}
use autentico.User.{user_by_id}
use autentico.Token.CodeGrant.{TokenRequest}
use autentico.Token.DeviceGrant.{answer, handle_device_code_grant, poll_code, find_device}

ruleset lives_rules = (
  within_rules, Lives-preorder, consume_device_code-Lives, increment_polling_interval-Lives,
  update_last_polled_at-Lives,
)

device_code_by_code-Lives :
    (env : Env) (code : String) → Within Lives (device_code_by_code env code)
unfolding device_code_by_code
device_code_by_code-Lives env code = search lives_rules

user_by_id-Lives : (env : Env) (id : String) → Within Lives (user_by_id env id)
unfolding user_by_id
user_by_id-Lives env id = search lives_rules

answer-Lives : (env : Env) (dc : DeviceCode) → Within Lives (answer env dc)
unfolding answer
answer-Lives env dc = search (lives_rules, user_by_id-Lives) depth 14

poll_code-Lives : (env : Env) (dc : DeviceCode) → Within Lives (poll_code env dc)
unfolding poll_code
poll_code-Lives env dc = search (lives_rules, answer-Lives) depth 14

handle_device_code_grant-Lives :
    (env : Env) (r : TokenRequest) → Within Lives (handle_device_code_grant env r)
unfolding handle_device_code_grant find_device
handle_device_code_grant-Lives env r =
    search (lives_rules, device_code_by_code-Lives, poll_code-Lives) depth 14

-- The operations on device codes, less the deletion of old rows by the sweep, each with the
-- circumstances it runs under.
pub data DeviceOp : Type 0 where
  issue : Env → DeviceCode → DeviceOp
  approve : Env → String → String → DeviceOp
  refuse : Env → String → DeviceOp
  poll : Env → TokenRequest → DeviceOp

unfoldable pub run_op : DeviceOp → Db → Db
run_op (issue env dc) db = (create_device_code env dc db).1
run_op (approve env user_code user_id) db = (authorize_device_code env user_code user_id db).1
run_op (refuse env user_code) db = (deny_device_code env user_code db).1
run_op (poll env r) db = (handle_device_code_grant env r db).1

unfoldable pub run_ops : List DeviceOp → Db → Db
unfolding run_op
run_ops [] db = db
run_ops (op ∷ ops) db = run_ops ops (run_op op db)

run_op-Lives : (op : DeviceOp) (db : Db) → Lives db (run_op op db)
unfolding run_op
run_op-Lives (issue env dc) db = (create_device_code-Lives env dc).at db
run_op-Lives (approve env user_code user_id) db =
    (authorize_device_code-Lives env user_code user_id).at db
run_op-Lives (refuse env user_code) db = (deny_device_code-Lives env user_code).at db
run_op-Lives (poll env r) db = (handle_device_code_grant-Lives env r).at db

-- After any operations, failing or not, every device code is still in the table, and its status
-- has moved along the machine: from pending to authorized or denied, from authorized to consumed.
-- What it was issued for is unchanged, and its polling interval has not shrunk.
pub run_ops-Lives : (ops : List DeviceOp) (db : Db) → Lives db (run_ops ops db)
unfolding run_ops
run_ops-Lives [] db = Lives-preorder.same db
run_ops-Lives (op ∷ ops) db =
    Lives-preorder.chain db (run_op op db) _ (run_op-Lives op db) (run_ops-Lives ops (run_op op db))
