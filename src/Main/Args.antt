-- ===== src/Main/Args.antt =====
-- parse_args() of server/src/main.cc: what it leaves for the driver.
use Prim.Native.String.{String}
use emmc_driver.Base.{
  ℕ, ◌≤◌, ◌≡◌, inl, inr, Bool, true, false, List, [], ◌∷◌, ◌++◌, Option, none, some, Outcome, done,
  throws, ℤ, pos, negsuc, arith, Bool-cases,
}
use emmc_driver.Main.{
  Env, ClientOpts, StaticClient, Settings, Opt, Parsed, opt_verbose, opt_quiet, opt_readonly,
  opt_dma_map_all, opt_dma_map_per_req, opt_other, opt_disable_mode, opt_client, opt_device,
  opt_max_seg, opt_ds_max, is_empty, add_named, add_client_of, add_client, set_max_seg, next_client,
  set_device, parse_opt, last_client, parse_end, go_on, parse_args,
}

-- Each client has a capability that exists and a device with a name.
abbrev pub ClientsNamed : Env → List StaticClient → Type 0
ClientsNamed env [] = Unit
ClientsNamed env (c ∷ cs) =
    (env.has_cap c.cap ≡ true) × (is_empty c.dev ≡ false) × ClientsNamed env cs

abbrev pub Usable : Env → Settings → Type 0
Usable env s = (s.max_seg ≤ 128) × ClientsNamed env s.clients

append-ClientsNamed :
    (env : Env) (cs : List StaticClient) (c : StaticClient)
    → ClientsNamed env cs
    → env.has_cap c.cap ≡ true
    → is_empty c.dev ≡ false
    → ClientsNamed env (cs ++ c ∷ [])
append-ClientsNamed env [] c h a b = (a, b, tt)
append-ClientsNamed env (d ∷ cs) c (p, q, h) a b = (p, q, append-ClientsNamed env cs c h a b)

abbrev NamedIf : Env → Option (List StaticClient) → Type 0
NamedIf env none = Unit
NamedIf env (some cs) = ClientsNamed env cs

add_named-NamedIf :
    (env : Env) (o : ClientOpts) (cs : List StaticClient) (cap : String)
    → ClientsNamed env cs
    → NamedIf env (add_named env o cs cap)
add_named-NamedIf env o cs cap h = elim (Bool-cases (is_empty o.device)) [
  | inl empty ↦ rw empty tt
  | inr named ↦ elim (Bool-cases (env.has_cap cap)) [
    | inl there ↦ rw (named, there) (append-ClientsNamed env cs _ h there named)
    | inr gone ↦ rw (named, gone) tt
  ]
]

add_client-NamedIf :
    (env : Env) (o : ClientOpts) (cs : List StaticClient)
    → ClientsNamed env cs
    → NamedIf env (add_client env o cs)
unfolding add_client
add_client-NamedIf env o cs h = of o.capname
  where
    of : (n : Option String) → NamedIf env (add_client_of env o cs n)
    of none = h
    of (some cap) = add_named-NamedIf env o cs cap h

next_client-Usable :
    (env : Env) (c : String) (r : Option (List StaticClient)) (s : Settings)
    → NamedIf env r
    → Usable env s
    → Usable env (next_client c r s).0
next_client-Usable env c none s n u = u
next_client-Usable env c (some cs) s n u = (u.0, n)

set_max_seg-Usable :
    (env : Env) (i : ℤ) (s : Settings) → Usable env s → Usable env (set_max_seg i s).0
set_max_seg-Usable env (pos n) s u = ground (arith, u)
set_max_seg-Usable env (negsuc n) s u = u

set_device-Usable :
    (env : Env) (o : Outcome String) (s : Settings) → Usable env s → Usable env (set_device o s).0
set_device-Usable env (done name) s u = u
set_device-Usable env (throws e) s u = u

parse_opt-Usable :
    (env : Env) (o : Opt) (s : Settings) → Usable env s → Usable env (parse_opt env o s).0
unfolding parse_opt
parse_opt-Usable env opt_verbose s u = u
parse_opt-Usable env opt_quiet s u = u
parse_opt-Usable env opt_readonly s u = u
parse_opt-Usable env opt_dma_map_all s u = u
parse_opt-Usable env opt_dma_map_per_req s u = u
parse_opt-Usable env opt_other s u = u
parse_opt-Usable env (opt_disable_mode m) s u = u
parse_opt-Usable env (opt_client c) s u =
    next_client-Usable env c (add_client env s.opts s.clients) s
      (add_client-NamedIf env s.opts s.clients u.1) u
parse_opt-Usable env (opt_device d) s u = set_device-Usable env (env.parse_device_name d) s u
parse_opt-Usable env (opt_max_seg i) s u = set_max_seg-Usable env i s u
parse_opt-Usable env (opt_ds_max n) s u = u

last_client-Usable :
    (env : Env) (optind : ℕ) (r : Option (List StaticClient)) (s : Settings)
    → NamedIf env r
    → Usable env s
    → Usable env (last_client optind r s).0
last_client-Usable env optind none s n u = u
last_client-Usable env optind (some cs) s n u = (u.0, n)

parse_end-Usable :
    (env : Env) (extra : Bool) (optind : ℕ) (s : Settings)
    → Usable env s
    → Usable env (parse_end env extra optind s).0
parse_end-Usable env true optind s u = u
parse_end-Usable env false optind s u =
    last_client-Usable env optind (add_client env s.opts s.clients) s
      (add_client-NamedIf env s.opts s.clients u.1) u

go_on-Usable :
    (env : Env) (p : Parsed) (k : Settings → Settings × ℤ)
    → Usable env p.0
    → ((s : Settings) → Usable env s → Usable env (k s).0)
    → Usable env (go_on p k).0
go_on-Usable env (s, none) k u rest = rest s u
go_on-Usable env (s, some r) k u rest = u

-- Whatever the options on the command line, also where `parse_args()` stops at one of them: where
-- `max_seg` was at most 128 before it is so afterwards, and every static client that was added has a
-- device with a name and a capability that exists, where those before had.
pub parse_args-Usable :
    (env : Env) (os : List Opt) (extra : Bool) (optind : ℕ) (s : Settings)
    → Usable env s
    → Usable env (parse_args env os extra optind s).0
unfolding parse_args
parse_args-Usable env [] extra optind s u = parse_end-Usable env extra optind s u
parse_args-Usable env (o ∷ os) extra optind s u =
    go_on-Usable env (parse_opt env o s) (parse_args env os extra optind)
      (parse_opt-Usable env o s u) (parse_args-Usable env os extra optind)
