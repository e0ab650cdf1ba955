-- ===== src/Client/Values/Laws.antt =====
-- The values of the client's flags, read and written.
use joe_cli_http.Prelude.{
  ℕ, Bool, true, false, ◌||◌, List, [], ◌∷◌, ◌++◌, ◌≡◌, ◌≢◌, refl, arith, if◌then◌else◌, Bytes,
  Bool-cases, inl, inr,
}
use joe_cli_http.Prelude.Text.{codes, has_prefix, cut, cut-append, cut_absent, contains}
use joe_cli_http.Client.Values.{
  UserInfo, set_user_info, show_user_info, fixup_address, fixup_host, has_scheme, schemes,
  VirtualPath, parse_virtual_path, show_virtual_path, fixup_request, or_dot,
}

cut-join : (c : ℕ) (s : Bytes) → let r = cut c s in s ≡ (if r.2 then r.0 ++ c ∷ r.1 else r.0)
unfolding cut
cut-join c [] = refl
cut-join c (x ∷ s) = ground (arith, cut-join c s)

-- A user that has been set is written as it was given.
pub show_user_info-set_user_info : (arg : Bytes) → show_user_info (set_user_info arg) ≡ arg
unfolding show_user_info set_user_info
show_user_info-set_user_info arg = ground (arith, cut-join b':' arg)

-- A user is read back as it was written, if its name has no colon, and if a user without a password
-- has an empty one.
pub set_user_info-show_user_info :
    (u : UserInfo)
    → contains u.user b':' ≡ false
    → (u.has_password ≡ false → u.password ≡ [])
    → set_user_info (show_user_info u) ≡ u
unfolding show_user_info set_user_info
set_user_info-show_user_info u h p = elim (Bool-cases u.has_password) [
  | inl e ↦ ground (arith, cut-append b':' u.user u.password h)
  | inr e ↦ ground (arith, cut_absent b':' u.user h, p e)
]

-- What `fixupAddress` leaves as it is.
abbrev pub is_complete : Bytes → Bool
is_complete [] = true
is_complete (c ∷ s) = has_prefix (c ∷ s) (codes "/") || has_scheme schemes (c ∷ s)

is_complete-no_colon : (s : Bytes) → is_complete s ≡ true → has_prefix s (codes ":") ≡ false
unfolding has_prefix has_scheme
is_complete-no_colon [] h = refl
is_complete-no_colon (c ∷ s) h = ground arith

fixup_host_complete : (s : Bytes) → is_complete s ≡ true → fixup_host s ≡ s
unfolding fixup_host
fixup_host_complete [] h = refl
fixup_host_complete (c ∷ s) h = ground arith

http_is_complete : (s : Bytes) → is_complete (codes "http://" ++ s) ≡ true
unfolding has_prefix has_scheme
http_is_complete s = refl

is_complete-fixup_host : (s : Bytes) → is_complete (fixup_host s) ≡ true
unfolding fixup_host
is_complete-fixup_host [] = refl
is_complete-fixup_host (c ∷ s) = elim (Bool-cases (is_complete (c ∷ s))) [
  | inl e ↦ rw (fixup_host_complete (c ∷ s) e) e
  | inr e ↦ ground (arith, http_is_complete (c ∷ s))
]

is_complete_of_scheme : (s : Bytes) → has_scheme schemes s ≡ true → is_complete s ≡ true
is_complete_of_scheme [] h = refl
is_complete_of_scheme (c ∷ s) h = ground arith

pub fixup_address_absolute : (s : Bytes) → has_scheme schemes s ≡ true → fixup_address s ≡ s
unfolding fixup_address
fixup_address_absolute s h =
    let c = is_complete_of_scheme s h in rw (is_complete-no_colon s c) (fixup_host_complete s c)

-- An address that has been completed is empty or begins with a slash or one of the schemes, and
-- completing it again changes nothing.
pub fixup_address-fixup_address :
    (a : Bytes)
    → (is_complete (fixup_address a) ≡ true) × (fixup_address (fixup_address a) ≡ fixup_address a)
unfolding fixup_address
fixup_address-fixup_address a =
    let c =
      is_complete-fixup_host
        (if has_prefix a (codes ":") then codes "http://localhost" ++ a else a) in
    (c, rw (is_complete-no_colon _ c) (fixup_host_complete _ c))

fixup_request_rooted : (r : Bytes) → has_prefix r (codes "/") ≡ true → fixup_request r ≡ r
unfolding fixup_request has_prefix
fixup_request_rooted [] h = cc
fixup_request_rooted (c ∷ s) h = ground arith

or_dot_ne : (s : Bytes) → s ≢ [] → or_dot s ≡ s
or_dot_ne [] n = absurd (n refl)
or_dot_ne (c ∷ s) n = refl

-- A virtual path whose request path begins with a slash and has no colon, whose physical path is not
-- empty and has no comma, and which has no options, is read back as it was written, if the package
-- splits no options from an empty text.
pub parse_virtual_path-show_virtual_path :
    (split_map : Bytes → List (Bytes × Bytes)) (show_value : Bytes → List (Bytes × Bytes) → Bytes)
    (v : VirtualPath)
    → split_map [] ≡ []
    → has_prefix v.request_path (codes "/") ≡ true
    → contains v.request_path b':' ≡ false
    → contains v.physical_path b',' ≡ false
    → v.physical_path ≢ []
    → v.options ≡ []
    → parse_virtual_path split_map (show_virtual_path show_value v) ≡ v
unfolding parse_virtual_path show_virtual_path fixup_request
parse_virtual_path-show_virtual_path split_map show_value v m r c d n o = rw o (
    rw (cut-append b':' v.request_path v.physical_path c, cut_absent b',' v.physical_path d, m)
      (ground (arith, fixup_request_rooted v.request_path r, or_dot_ne v.physical_path n)))
