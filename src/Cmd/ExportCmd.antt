-- ===== src/Cmd/ExportCmd.antt =====
-- `appExport` of cmd/monod/cmd/commands.go: the command that exports the state of the application.
use mono_chain.Prelude.{
  zero, suc, ◌≢◌, ◌≡◌, refl, sym, ap, Bool, true, false, String, List, ◌∷◌, [],
}
use mono_chain.Prelude.Int.{ℤ, pos, negsuc}
use mono_chain.Sdk.Outcome.{Result, ok, err, library, on_ok, on_ok_inv, Action}
use mono_chain.Cmd.Text.{Text}
use mono_chain.Cmd.Testnet.{Value, hex_bytes, pub_key, text}

-- `app.New`, which panics on an error, `LoadHeight`, and the export of a state.
module _ {App Exported : Type 0} (new : (load_latest : Bool) → Result App)
    (load_height : ℤ → Action App (Unit {0}))
    (export : (for_zero_height : Bool) (jail_allowed_addrs modules : List String)
      → Action App Exported) where
  -- The home directory has to be a text that is not empty.
  unfoldable pub home_path : Value → Result Text
  home_path (text []) = err (library "application home not set")
  home_path (text (c ∷ cs)) = ok (c ∷ cs)
  home_path (hex_bytes b) = err (library "application home not set")
  home_path (pub_key k) = err (library "application home not set")
  home_path Value.other = err (library "application home not set")

  -- `appOpts.(*viper.Viper)`
  abbrev pub check_viper : Bool → Result (Unit {0})
  check_viper true = ok tt
  check_viper false = err (library "appOpts is not viper.Viper")

  abbrev pub loaded : ℤ → Result App → Result App
  loaded height (err e) = err e
  loaded height (ok app) = on_ok (load_height height app).0 λ _. ok (load_height height app).1

  -- The application at the height that is given, or at the last one for -1.
  unfoldable pub app_at : ℤ → Result App
  app_at (negsuc zero) = new true
  app_at (negsuc (suc n)) = loaded (negsuc (suc n)) (new false)
  app_at (pos n) = loaded (pos n) (new false)

  -- `appExport`
  unfoldable pub app_export :
      (home : Value) (is_viper : Bool) (height : ℤ) (for_zero_height : Bool)
      (jail_allowed_addrs modules : List String)
      → Result Exported
  unfolding home_path app_at
  app_export home is_viper height for_zero_height jail_allowed_addrs modules =
      on_ok (home_path home) λ _.
        on_ok (check_viper is_viper) λ _.
          on_ok (app_at height) λ app. (export for_zero_height jail_allowed_addrs modules app).0

  abbrev pub IsLoaded : ℤ → App → Type 0
  IsLoaded height app =
      (a : App) × (new false ≡ ok a)
      × ((load_height height a).0 ≡ ok tt)
      × ((load_height height a).1 ≡ app)

  -- The application whose state is exported.
  abbrev pub IsAppAt : ℤ → App → Type 0
  IsAppAt (negsuc zero) app = new true ≡ ok app
  IsAppAt (negsuc (suc n)) app = IsLoaded (negsuc (suc n)) app
  IsAppAt (pos n) app = IsLoaded (pos n) app

  loaded-IsLoaded :
      (height : ℤ) (r : Result App) (app : App)
      → r ≡ new false
      → loaded height r ≡ ok app
      → IsLoaded height app
  loaded-IsLoaded height (err e) app same done = absurd (cc done)
  loaded-IsLoaded height (ok a) app same done =
      let (_, went, e) = on_ok_inv (load_height height a).0 _ done in (a, sym same, went, cc e)

  app_at-IsAppAt : (height : ℤ) (app : App) → app_at height ≡ ok app → IsAppAt height app
  unfolding app_at
  app_at-IsAppAt (negsuc zero) app done = done
  app_at-IsAppAt (negsuc (suc n)) app done =
      loaded-IsLoaded (negsuc (suc n)) (new false) app refl done
  app_at-IsAppAt (pos n) app done = loaded-IsLoaded (pos n) (new false) app refl done

  home_path-some :
      (home : Value) (path : Text) → home_path home ≡ ok path → (home ≡ text path) × (path ≢ [])
  unfolding home_path
  home_path-some (text []) path done = absurd (cc done)
  home_path-some (text (c ∷ cs)) path done =
      let e : c ∷ cs ≡ path = cc done in (ap text e, λ none. cc (e, none))
  home_path-some (hex_bytes b) path done = absurd (cc done)
  home_path-some (pub_key k) path done = absurd (cc done)
  home_path-some Value.other path done = absurd (cc done)

  check_viper-true : (b : Bool) → check_viper b ≡ ok tt → b ≡ true
  check_viper-true true done = refl
  check_viper-true false done = absurd (cc done)

  -- An export that returns no error has a home directory that is not empty and options of viper, and
  -- is made from the last version for the height -1, and for any other height from a version that
  -- was loaded at that height and not at the last one.
  pub app_export_inv :
      (home : Value) (is_viper : Bool) (height : ℤ) (for_zero_height : Bool)
      (jail_allowed_addrs modules : List String) (x : Exported)
      → app_export home is_viper height for_zero_height jail_allowed_addrs modules ≡ ok x
      → ((path : Text) × (home ≡ text path) × (path ≢ []))
        × (is_viper ≡ true)
        × ((app : App) × IsAppAt height app
            × ((export for_zero_height jail_allowed_addrs modules app).0 ≡ ok x))
  unfolding app_export
  app_export_inv home is_viper height for_zero_height jail_allowed_addrs modules x done =
      let (path, at_home, done1) = on_ok_inv (home_path home) _ done in
      let (_, viper, done2) = on_ok_inv (check_viper is_viper) _ done1 in
      let (app, here, exported) = on_ok_inv (app_at height) _ done2 in
      let is_home = home_path-some home path at_home in
      (
        (path, is_home.0, is_home.1),
        check_viper-true is_viper viper,
        (app, app_at-IsAppAt height app here, exported),
      )
