-- ===== src/Operator/Http.antt =====
-- The protocol that the operator's two servers offer.
use mathlib.Core.List.{Memᴰ}
use mathlib.Core.Path.{subst}
use redis_foxtrot_autoscaler.Prelude.{
  ◌≡◌, refl, sym, false, Option, none, some, List, [], ◌∷◌, ◌++◌, All,
}
use redis_foxtrot_autoscaler.Operator.{
  Flags, Watcher, TlsConfig, TlsOption, disable_http2, append_watcher, ManagerOptions,
  manager_options, Step, new_manager, new_watcher, add_watcher, Ending, Libraries, program,
}
use redis_foxtrot_autoscaler.Operator.Startup.{
  onto, each, managed, Stopped, completes, fails, startup, webhook_watcher, metrics_watcher,
  program-Stopped,
}

-- The options in their order, as the server applies them.
abbrev pub configure : List TlsOption → TlsConfig → TlsConfig
configure [] config = config
configure (o ∷ os) config = configure os (o config)

abbrev pub OnlyHttp1 : List TlsOption → Type 0
OnlyHttp1 os = (config : TlsConfig) → (configure os config).next_protos ≡ "http/1.1" ∷ []

abbrev IsGuarded : Step → Type 0
IsGuarded (new_manager o) = OnlyHttp1 o.metrics.tls_opts × OnlyHttp1 o.webhook_tls_opts
IsGuarded _ = Unit

guarded-append : (w : Option Watcher) → OnlyHttp1 (append_watcher (disable_http2 ∷ []) w)
guarded-append none config = refl
guarded-append (some w) config = refl

guarded :
    (f : Flags)
    → f.enable_http2 ≡ false
    → (m w : Option Watcher) → IsGuarded (new_manager (manager_options f w m))
guarded f off m w = rw off (guarded-append m, guarded-append w)

module _ (P : Step → Type 0) where
  All-front : (xs ys : List Step) → All P (xs ++ ys) → All P xs
  All-front [] ys a = tt
  All-front (x ∷ xs) ys (a, bs) = (a, All-front xs ys bs)

  All-head : (xs ys : List Step) (x : Step) → All P (xs ++ (x ∷ ys)) → P x
  All-head [] ys x (a, bs) = a
  All-head (y ∷ xs) ys x (a, bs) = All-head xs ys x bs

  All-onto : (xs h : List Step) → All P xs → All P h → All P (onto xs h)
  All-onto [] h a b = b
  All-onto (x ∷ xs) h (a, bs) b = All-onto xs (x ∷ h) bs (a, b)

  All-append : (xs ys : List Step) → All P xs → All P ys → All P (xs ++ ys)
  All-append [] ys a b = b
  All-append (x ∷ xs) ys (a, bs) b = (a, All-append xs ys bs b)

  All-member : {x : Step} {xs : List Step} → All P xs → Memᴰ x xs → P x
  All-member {xs = []} a m = elim m [ ]
  All-member {xs = y ∷ ys} (a, bs) (Memᴰ.head e) = subst P (sym e) a
  All-member {xs = y ∷ ys} (a, bs) (Memᴰ.tail m) = All-member bs m

  each-All :
      (f : Watcher → Step) → ((w : Watcher) → P (f w)) → (o : Option Watcher) → All P (each f o)
  each-All f a none = tt
  each-All f a (some w) = (a w, tt)

managed-IsGuarded :
    (f : Flags) → f.enable_http2 ≡ false → (w m : Option Watcher) → All IsGuarded (managed f w m)
managed-IsGuarded f off w m =
    let seen = All-append IsGuarded in
    let added = each-All IsGuarded add_watcher (λ x. tt) in
    let last = seen (each add_watcher w) _ (added w) (tt, (tt, (tt, tt))) in
    (tt, (guarded f off m w, (tt, seen (each add_watcher m) _ (added m) last)))

module _ (l : Libraries) where
  -- Whatever holds for every call_library of the whole start holds for every call_library that is made.
  made-All :
      (P : Step → Type 0) {plan : List Step} {r : Ending × List Step}
      → All P plan
      → Stopped l plan [] r
      → All P r.1
  made-All P {plan} a (completes s) = All-onto P plan [] a tt
  made-All P a (fails before later x e eq s bad) =
      let a' = subst (λ xs. All P xs) eq a in
      (All-head P before later x a', All-onto P before [] (All-front P before (x ∷ later) a') tt)

  startup-IsGuarded : (f : Flags) → f.enable_http2 ≡ false → All IsGuarded (startup l f)
  startup-IsGuarded f off =
      let w = webhook_watcher l f in
      let m = metrics_watcher l f in
      let seen = All-append IsGuarded in
      let watchers = each-All IsGuarded new_watcher (λ x. tt) in
      let managed = managed-IsGuarded f off w m in
      (
        tt,
        (
          tt,
          (
            tt,
            seen (each new_watcher w) _ (watchers w)
                (seen (each new_watcher m) _ (watchers m) managed),
          ),
        ),
      )

  -- Unless the flag enables HTTP/2, both servers of every manager that the process makes offer
  -- only HTTP/1.1, whichever certificates are watched and whatever the config was before.
  pub program-OnlyHttp1 :
      (f : Flags) (o : ManagerOptions)
      → f.enable_http2 ≡ false
      → Memᴰ (new_manager o) (program l f []).1
      → OnlyHttp1 o.metrics.tls_opts × OnlyHttp1 o.webhook_tls_opts
  program-OnlyHttp1 f o off m =
      All-member IsGuarded (made-All IsGuarded (startup-IsGuarded f off) (program-Stopped l f)) m
