-- ===== src/Examples/Store.antt =====
-- The store over a device whose reads and writes are whole, and one whose reads are short.
use mathlib.Core.Option
use czarr.Prelude.{
  ℕ, zero, suc, ◌≡◌, refl, ap, sym, ◌∙◌, arith, length, length-take, length-drop, take-all, true,
  false, none, some, [], ◌∷◌, length-replicate, replicate, take, drop, if◌then◌else◌, done, raise,
  os_error, runtime_error,
}
use czarr.Prelude.Text.{str_eq}
use czarr.Plan.ShardIndex.{Bytes, Files}
use czarr.Store.{
  suffix, zarr_gpu, czarr_gpu, wanted, Device, set_file, LocalStore, GpuLocalStore, init_store, get,
  set,
}
use czarr.Store.Reads.{ReadsWhole, get-wanted}
use czarr.Store.Writes.{WritesWhole, get-set}

done-inj : (xs ys : Bytes) → done xs ≡ done ys → xs ≡ ys
done-inj xs ys h = cc

number-inj : (m n : ℕ) → done m ≡ done n → m ≡ n
number-inj m n h = cc

capped_take : (n : ℕ) (xs : Bytes) → take n xs ≡ take (length (take n xs)) xs
capped_take zero xs = refl
capped_take (suc n) [] = refl
capped_take (suc n) (x ∷ xs) = ap (◌∷◌ x) (capped_take n xs)

plain_write : (value : Bytes) (n : ℕ) → done (length value) ≡ done n → value ≡ take n value
plain_write value n h = sym (take-all n value (omega (arith, number-inj (length value) n h)))

abbrev plain_device : Device
plain_device = record {
  read = λ content size at. done (take size (drop at content));
  opens = λ path. done tt;
  write = λ content value at. (done (length value), value);
  empty = λ n. replicate n 170;
  length-empty = λ n. length-replicate n 170;
  read-take = λ content got size at h.
      let same = done-inj (take size (drop at content)) got h in
      rw same (sym (take-all (length got) got (omega arith)));
  write-take = plain_write;
}

-- A device whose reads fail behind 2 bytes.
abbrev short_device : Device
short_device = record {
  read = λ content size at. done (take 2 (take size (drop at content)));
  opens = λ path. done tt;
  write = λ content value at. (done (length value), value);
  empty = λ n. replicate n 170;
  length-empty = λ n. length-replicate n 170;
  read-take = λ content got size at h.
      let same = done-inj (take 2 (take size (drop at content))) got h in
      sym same
      ∙ capped_take 2 (take size (drop at content))
      ∙ ap (λ xs. take (length xs) (take size (drop at content))) same;
  write-take = plain_write;
}

abbrev directory : LocalStore
directory = record {
  get = λ files key request. done (Option.map (wanted request) (files key));
  set = λ files key value. (done tt, set_file files key value);
  get-wanted = λ files key request ok. refl;
  set-set_file = λ files files' key value h k. ap (λ p. p.1 k) (sym h);
}

plain_device-ReadsWhole : (content : Bytes) → ReadsWhole plain_device directory content
plain_device-ReadsWhole content size at = (
  take size (drop at content),
  refl,
  omega (arith, length-take size (drop at content), length-drop at content),
)

plain_device-WritesWhole : (value : Bytes) → WritesWhole plain_device directory value
plain_device-WritesWhole value n h = sym (number-inj (length value) n h)

abbrev on_gpu : GpuLocalStore
on_gpu = record { read_only = false; gds_available = true }

abbrev old_file : Bytes
old_file = 1 ∷ 2 ∷ 3 ∷ 4 ∷ []

abbrev files : Files
files key = if str_eq key "c/0" then some old_file else none

get-wanted_example :
    get plain_device directory on_gpu files "c/0" czarr_gpu (some (suffix 3))
    ≡ done (some (2 ∷ 3 ∷ 4 ∷ []))
get-wanted_example =
    get-wanted plain_device directory on_gpu files "c/0" czarr_gpu (some (suffix 3))
      (λ e. absurd cc) (λ content there. plain_device-ReadsWhole content)

-- A short read is no error: two of the three bytes come back.
truncated :
    get short_device directory on_gpu files "c/0" czarr_gpu (some (suffix 3))
    ≡ done (some (2 ∷ 3 ∷ []))
unfolding get
truncated = refl

-- An empty value leaves the file as it is.
emptied :
    set plain_device directory on_gpu files "c/0" zarr_gpu []
    ≡ (done tt, set_file files "c/0" old_file)
unfolding set
emptied = refl

emptied_reads_back :
    get plain_device directory on_gpu (set_file files "c/0" old_file) "c/0" zarr_gpu none
    ≡ done (some old_file)
unfolding get
emptied_reads_back = refl

abbrev new_value : Bytes
new_value = 7 ∷ 8 ∷ []

written :
    set plain_device directory on_gpu files "c/0" zarr_gpu new_value
    ≡ (done tt, set_file files "c/0" new_value)
unfolding set
written = refl

failed_write : (value : Bytes) (n : ℕ) → raise os_error ≡ done n → take 1 value ≡ take n value
failed_write value n h = absurd (cc)

-- A write that fails behind the first byte leaves a truncated file.
abbrev failing_device : Device
failing_device = record {
  read = plain_device.read;
  opens = λ path. done tt;
  write = λ content value at. (raise os_error, take 1 value);
  empty = plain_device.empty;
  length-empty = plain_device.length-empty;
  read-take = plain_device.read-take;
  write-take = failed_write;
}

left_truncated :
    set failing_device directory on_gpu files "c/0" zarr_gpu new_value
    ≡ (raise os_error, set_file files "c/0" (7 ∷ []))
unfolding set
left_truncated = refl

get-set_example :
    get plain_device directory on_gpu
      (set_file files "c/0" new_value)
      "c/0"
      czarr_gpu
      (some (suffix 1))
    ≡ done (some (8 ∷ []))
get-set_example =
    get-set plain_device directory on_gpu files (set_file files "c/0" new_value) "c/0" "c/0"
      zarr_gpu czarr_gpu new_value (some (suffix 1)) (λ e. absurd cc)
      (plain_device-WritesWhole new_value) plain_device-ReadsWhole written

forced_without_cufile : init_store false false true ≡ raise runtime_error
unfolding init_store
forced_without_cufile = refl
