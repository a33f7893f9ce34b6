-- ===== src/Agent/Tools/Scope/Ladder.antt =====
-- Who a level lets in.
use anonka.Prelude.{◌≡◌, Bool, true, false, ◌&&◌, ◌||◌, arith}
use anonka.Agent.Tools.Scope.{ToolAccessLevel, all, allowlist, admin, off, enforce_minimum_access}

-- Whether a level lets in somebody who is an admin or not, and on the allowlist or not.
abbrev pub lets_in : ToolAccessLevel → Bool → Bool → Bool
lets_in all is_admin is_listed = true
lets_in allowlist is_admin is_listed = is_admin || is_listed
lets_in admin is_admin is_listed = is_admin
lets_in off is_admin is_listed = false

-- The stricter of two levels lets in whom both let in.
pub lets_in-enforce_minimum_access :
    (a b : ToolAccessLevel) (is_admin is_listed : Bool)
    → lets_in (enforce_minimum_access a b) is_admin is_listed
      ≡ (lets_in a is_admin is_listed && lets_in b is_admin is_listed)
lets_in-enforce_minimum_access all all true l = ground arith
lets_in-enforce_minimum_access all all false l = ground arith
lets_in-enforce_minimum_access all allowlist true l = ground arith
lets_in-enforce_minimum_access all allowlist false l = ground arith
lets_in-enforce_minimum_access all admin true l = ground arith
lets_in-enforce_minimum_access all admin false l = ground arith
lets_in-enforce_minimum_access all off true l = ground arith
lets_in-enforce_minimum_access all off false l = ground arith
lets_in-enforce_minimum_access allowlist all true l = ground arith
lets_in-enforce_minimum_access allowlist all false l = ground arith
lets_in-enforce_minimum_access allowlist allowlist true l = ground arith
lets_in-enforce_minimum_access allowlist allowlist false l = ground arith
lets_in-enforce_minimum_access allowlist admin true l = ground arith
lets_in-enforce_minimum_access allowlist admin false l = ground arith
lets_in-enforce_minimum_access allowlist off true l = ground arith
lets_in-enforce_minimum_access allowlist off false l = ground arith
lets_in-enforce_minimum_access admin all true l = ground arith
lets_in-enforce_minimum_access admin all false l = ground arith
lets_in-enforce_minimum_access admin allowlist true l = ground arith
lets_in-enforce_minimum_access admin allowlist false l = ground arith
lets_in-enforce_minimum_access admin admin true l = ground arith
lets_in-enforce_minimum_access admin admin false l = ground arith
lets_in-enforce_minimum_access admin off true l = ground arith
lets_in-enforce_minimum_access admin off false l = ground arith
lets_in-enforce_minimum_access off all true l = ground arith
lets_in-enforce_minimum_access off all false l = ground arith
lets_in-enforce_minimum_access off allowlist true l = ground arith
lets_in-enforce_minimum_access off allowlist false l = ground arith
lets_in-enforce_minimum_access off admin true l = ground arith
lets_in-enforce_minimum_access off admin false l = ground arith
lets_in-enforce_minimum_access off off true l = ground arith
lets_in-enforce_minimum_access off off false l = ground arith
