-- ===== src/Main/Create.antt =====
-- Blk_mgr::op_create() of server/src/main.cc: a client asks for a connection by text parameters. A
-- text is the list of its bytes, without the zero at its end.
use Prim.Native.Char.{code}
use Prim.Native.String.{String}
use emmc_driver.Base.{
  ℕ, zero, suc, ◌+◌, ◌-◌, ◌*◌, ◌^◌, Bool, true, false, not, ◌&&◌, ◌||◌, List, [], ◌∷◌, Errno,
  einval, enodev, eagain, Outcome, done, throws, ℤ, pos, negsuc, is_between, ltb, leb, ◌==◌,
  if◌then◌else◌, length, take, drop, min,
}

abbrev pub bytes : String → List ℕ
bytes String.[] = []
bytes (String.◌∷◌ c s) = code c ∷ bytes s

-- L4::Ipc::Varg: `text` has the bytes of its value and its `length()`.
pub data Varg : Type 0 where
  not_text : Varg
  text : List ℕ → ℕ → Varg

-- strncmp(s, t, n) == 0
unfoldable pub strncmp_equal : ℕ → List ℕ → List ℕ → Bool
strncmp_equal zero s t = true
strncmp_equal (suc n) [] [] = true
strncmp_equal (suc n) [] (y ∷ ys) = false
strncmp_equal (suc n) (x ∷ xs) [] = false
strncmp_equal (suc n) (x ∷ xs) (y ∷ ys) = (x == y) && strncmp_equal n xs ys

-- Whether a parameter begins with a name, as both of parse_string_param() and parse_int_param() ask.
abbrev pub has_prefix : List ℕ → List ℕ → ℕ → Bool
has_prefix prefix s len = not (ltb len (length prefix)) && strncmp_equal (length prefix) s prefix

-- The text that parse_string_param() cuts out.
abbrev pub string_param : List ℕ → List ℕ → ℕ → List ℕ
string_param prefix s len = take (min (length s) len - length prefix) (drop (length prefix) s)

abbrev is_space : ℕ → Bool
is_space c = (c == 32) || (leb 9 c && leb c 13)

abbrev is_digit : ℕ → Bool
is_digit c = leb 48 c && leb c 57

unfoldable pub skip_spaces : List ℕ → List ℕ
skip_spaces [] = []
skip_spaces (c ∷ s) = let rest = skip_spaces s in if is_space c then rest else c ∷ s

-- the value of the digits in front, given that of those before, and what is behind them
unfoldable pub digits : ℕ → List ℕ → ℕ × List ℕ
digits n [] = (n, [])
digits n (c ∷ s) =
    let rest = digits (n * 10 + (c - 48)) s in if is_digit c then rest else (n, c ∷ s)

abbrev minus : ℕ → ℤ
minus zero = pos zero
minus (suc n) = negsuc n

abbrev pub is_nil : List ℕ → Bool
is_nil [] = true
is_nil (c ∷ s) = false

abbrev starts_digit : List ℕ → Bool
starts_digit [] = false
starts_digit (c ∷ s) = is_digit c

-- strtol() in base 10, with `*endp == '\0'`; where there are no digits, `endp` is the whole text.
unfoldable pub strtol_unsigned : List ℕ → (ℕ → ℤ) → List ℕ → ℤ × Bool
unfolding digits
strtol_unsigned all sign s =
    if starts_digit s then (sign (digits 0 s).0, is_nil (digits 0 s).1) else (pos 0, is_nil all)

abbrev strtol_signed : List ℕ → List ℕ → ℤ × Bool
strtol_signed all [] = (pos 0, is_nil all)
strtol_signed all (c ∷ s) =
    if c == 45
    then strtol_unsigned all minus s
    else if c == 43
    then strtol_unsigned all pos s
    else strtol_unsigned all pos (c ∷ s)

unfoldable pub strtol : List ℕ → ℤ × Bool
unfolding skip_spaces strtol_unsigned
strtol s = strtol_signed s (skip_spaces s)

-- INT_MIN ≤ num ≤ INT_MAX
abbrev pub fits_int : ℤ → Bool
fits_int (pos n) = ltb n (2 ^ 31)
fits_int (negsuc n) = ltb n (2 ^ 31)

-- What parse_int_param() stores or throws where the name is that of the parameter.
unfoldable pub int_param : List ℕ → List ℕ → ℕ → Outcome ℤ
unfolding strtol
int_param prefix s len =
    let (num, at_end) = strtol (take (len - length prefix) (drop (length prefix) s)) in
    if not (fits_int num) || not at_end then throws einval else done num

-- The variables of op_create().
pub record ClientParams : Type 0 where
  pub device : List ℕ
  pub num_ds : ℤ
  pub readonly : Bool
  pub dma_map_all : Bool

abbrev pub default_values : ClientParams
default_values = record { device = []; num_ds = pos 2; readonly = false; dma_map_all = true }

-- What op_create() returns, or throws; `client` is a result of create_dynamic_client() that is not
-- negative.
pub data Created : Type 0 where
  client : ℕ → Created
  refused raised : Errno → Created

-- One round of the loop: the variables, or what ends the call.
pub data Took : Type 0 where
  took : ClientParams → Took
  ends : Created → Took

abbrev pub take_name : Outcome (List ℕ) → ClientParams → Took
take_name (done name) c = took (record c { device = name })
take_name (throws e) c = ends (refused e)

abbrev pub take_num_ds : Outcome ℤ → ClientParams → Took
take_num_ds (done n) c =
    if is_between 1 256 n then took (record c { num_ds = n }) else ends (refused einval)
take_num_ds (throws e) c = ends (raised e)

-- `parse_device_name()` and `create_dynamic_client()` of libblock-device.
pub record Manager : Type 0 where
  pub parse_device_name : List ℕ → Outcome (List ℕ)
  pub create_dynamic_client : ClientParams → Created

unfoldable pub take_param : Manager → Varg → ClientParams → Took
unfolding int_param
take_param m not_text c = ends (refused einval)
take_param m (text s len) c =
    if has_prefix (bytes "device=") s len
    then take_name (m.parse_device_name (string_param (bytes "device=") s len)) c
    else if has_prefix (bytes "ds-max=") s len
    then take_num_ds (int_param (bytes "ds-max=") s len) c
    else if strncmp_equal len s (bytes "readonly")
    then took (record c { readonly = true })
    else if strncmp_equal len s (bytes "dma-map-per-req")
    then took (record c { dma_map_all = false })
    else took c

abbrev pub is_enodev : Created → Bool
is_enodev (refused enodev) = true
is_enodev _ = false

-- The end of op_create(), where the client is not there yet.
abbrev pub try_later : Bool → Created → Created
try_later scan_in_progress r = if is_enodev r && scan_in_progress then refused eagain else r

-- With what create_dynamic_client() was called for.
abbrev pub Asked : Type 0
Asked = List ClientParams

abbrev pub create_client : Manager → Bool → ClientParams → Created × Asked
create_client m scan_in_progress c =
    if is_nil c.device
    then (refused einval, [])
    else (try_later scan_in_progress (m.create_dynamic_client c), c ∷ [])

abbrev pub go_on : Took → (ClientParams → Created × Asked) → Created × Asked
go_on (took c) k = k c
go_on (ends r) k = (r, [])

-- The loop over the parameters and what follows it.
unfoldable pub op_create_from : Manager → Bool → List Varg → ClientParams → Created × Asked
op_create_from m scan_in_progress [] c = create_client m scan_in_progress c
op_create_from m scan_in_progress (p ∷ ps) c =
    go_on (take_param m p c) (op_create_from m scan_in_progress ps)

unfoldable pub op_create : Manager → Bool → List Varg → Created × Asked
unfolding op_create_from
op_create m scan_in_progress ps = op_create_from m scan_in_progress ps default_values
