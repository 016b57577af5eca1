-- ===== src/VpnKeys/Returning.antt =====
-- When the keys of a link can be generated, they are (uno/registry/vpn_keymat.py, `assert_pair` of
-- `P2pVpnKeyMaterial`).
use uno.Prelude.{◌≡◌, ok, Exec}
use Prim.Native.String.{String}

-- Runs that return, for every identifier and from every state.
abbrev pub Returns : {K S A : Type 0} → (K → Exec S A) → Type 0
Returns {K = K} {S = S} {A = A} run = (k : K) (s : S) → (a : A) × ((run k s).0 ≡ ok a)
