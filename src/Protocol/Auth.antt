-- ===== src/Protocol/Auth.antt =====
-- crates/protocol/src/auth.rs: the opcodes and the return codes of the auth server.
use azerust.Prelude.{ℕ, ◌≡◌, refl, Option, none, some, ◌==◌, if◌then◌else◌, arith}
use azerust.Game.Accounts.{LoginFailure}

pub data AuthCommand : Type 0 where
  connect proof re_connect re_proof realm_list : AuthCommand

unfoldable pub auth_command_code : AuthCommand → ℕ
auth_command_code connect = 0x00
auth_command_code proof = 0x01
auth_command_code re_connect = 0x02
auth_command_code re_proof = 0x03
auth_command_code realm_list = 0x10

-- `AuthCommand::try_from`, which the derive makes of the numbers above
unfoldable pub auth_command_from : ℕ → Option AuthCommand
auth_command_from b =
    if b == 0x00
    then some connect
    else if b == 0x01
    then some proof
    else if b == 0x02
    then some re_connect
    else if b == 0x03
    then some re_proof
    else if b == 0x10
    then some realm_list
    else none

pub data ReturnCode : Type 0 where
  success failed failed2 banned unknown_account incorrect_password : ReturnCode
  already_online no_time db_busy version_invalid version_update invalid_server : ReturnCode
  suspended no_access success_survey parent_control locked_enforced trial_ended : ReturnCode
  use_battlenet anti_indulgence expired no_game_account chargeback : ReturnCode
  internet_game_room_without_bnet game_account_locked unlockable_lock : ReturnCode
  conversion_required disconnected : ReturnCode

unfoldable pub return_code : ReturnCode → ℕ
return_code success = 0x00
return_code failed = 0x01
return_code failed2 = 0x02
return_code banned = 0x03
return_code unknown_account = 0x04
return_code incorrect_password = 0x05
return_code already_online = 0x06
return_code no_time = 0x07
return_code db_busy = 0x08
return_code version_invalid = 0x09
return_code version_update = 0x0A
return_code invalid_server = 0x0B
return_code suspended = 0x0C
return_code no_access = 0x0D
return_code success_survey = 0x0E
return_code parent_control = 0x0F
return_code locked_enforced = 0x10
return_code trial_ended = 0x11
return_code use_battlenet = 0x12
return_code anti_indulgence = 0x13
return_code expired = 0x14
return_code no_game_account = 0x15
return_code chargeback = 0x16
return_code internet_game_room_without_bnet = 0x17
return_code game_account_locked = 0x18
return_code unlockable_lock = 0x19
return_code conversion_required = 0x20
return_code disconnected = 0xFF

-- `ReturnCode::from(LoginFailure)`
unfoldable pub login_failure_code : LoginFailure → ReturnCode
login_failure_code LoginFailure.suspended = suspended
login_failure_code LoginFailure.banned = banned
login_failure_code LoginFailure.unknown_account = unknown_account
login_failure_code LoginFailure.incorrect_password = incorrect_password
login_failure_code LoginFailure.database_error = failed

-- A byte is read as a command exactly when it is that command's number.
pub auth_command_from_code : (c : AuthCommand) → auth_command_from (auth_command_code c) ≡ some c
unfolding auth_command_from auth_command_code
auth_command_from_code connect = refl
auth_command_from_code proof = refl
auth_command_from_code re_connect = refl
auth_command_from_code re_proof = refl
auth_command_from_code realm_list = refl

pub auth_command_from-some :
    (b : ℕ) (c : AuthCommand) → auth_command_from b ≡ some c → auth_command_code c ≡ b
unfolding auth_command_from auth_command_code
auth_command_from-some b c h = ground arith
