-- ===== src/Command/Handlers/Redeem.antt =====
-- internal/command/redeem.go: how failures of a redemption are told apart.
use inari_agent.Prelude.{Str, codes, Bool, true, ok, err}
use inari_agent.Prelude.Effect.{Effect}

-- connect.Code, the values that the code names and the others.
pub data ConnectCode : Type 0 where
  code_not_found code_failed_precondition code_already_exists code_invalid_argument : ConnectCode
  code_permission_denied code_unauthenticated code_other : ConnectCode

-- An error of a call: one of connect with its code, or another; with its text.
pub data CallError : Type 0 where
  connect_error : ConnectCode → Str → CallError
  plain_error : Str → CallError

pub data RedeemCode : Type 0 where
  ref_not_found ref_expired ref_already_redeemed ref_invalid ref_denied : RedeemCode

-- A RedeemError, or any other error with its text.
pub data RedeemFailure : Type 0 where
  redeem_error : RedeemCode → RedeemFailure
  passed_on : Str → RedeemFailure

-- RedeemError.Error
unfoldable pub redeem_text : RedeemCode → Str
redeem_text ref_not_found = codes "user credential not found or revoked"
redeem_text ref_expired = codes "user credential expired"
redeem_text ref_already_redeemed = codes "user credential already redeemed"
redeem_text ref_invalid = codes "user credential reference invalid"
redeem_text ref_denied = codes "user credential redemption denied"

-- RedeemError.Terminal
abbrev pub is_terminal : RedeemCode → Bool
is_terminal c = true

-- classifyRedeemError
unfoldable pub classify_redeem_error : CallError → RedeemFailure
classify_redeem_error (plain_error e) = passed_on e
classify_redeem_error (connect_error code_not_found e) = redeem_error ref_not_found
classify_redeem_error (connect_error code_failed_precondition e) = redeem_error ref_expired
classify_redeem_error (connect_error code_already_exists e) = redeem_error ref_already_redeemed
classify_redeem_error (connect_error code_invalid_argument e) = redeem_error ref_invalid
classify_redeem_error (connect_error code_permission_denied e) = redeem_error ref_denied
classify_redeem_error (connect_error code_unauthenticated e) = redeem_error ref_denied
classify_redeem_error (connect_error code_other e) = passed_on e

-- Redeem: one call of the service, whose answer is the bearer token.
unfoldable pub redeem :
    {W : Type 0} → (Str → Effect W CallError Str) → Str → Effect W RedeemFailure Str
unfolding classify_redeem_error
redeem call ref w =
    let (r, w') = call ref w in
    elim r [ ok token ↦ (ok token, w') | err e ↦ (err (classify_redeem_error e), w') ]
