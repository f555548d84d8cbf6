-- ===== src/Bindings.antt =====
-- src/language_bindings.c: the runtimes of other languages, data that passes between them, and the
-- numbers of producers and consumers. A runtime's own functions and `malloc` are arguments.
pub mod AutoScaling
pub mod Direct
pub mod Limits
pub mod Delivery
pub mod Owners
use universal_multi_segmente.Prelude.{
  ℕ, String, Bool, true, false, Option, none, some, List, leb, if◌then◌else◌, length, get_or, set,
  replicate,
}
use universal_multi_segmente.Capsule.{Memory}
use universal_multi_segmente.Standalone.Bytes.{load, store}

-- `data` is the address of the block.
pub record UniversalData : Type 0 where
  pub data_ptr : ℕ
  pub size : ℕ
  pub type_id : ℕ
  pub source_lang : ℕ

-- A function pointer that is null is none. `deallocator` says that there is one, and the handler of
-- errors and the context, which nothing uses, are left out.
pub record LanguageRuntime : Type 0 where
  pub lang_type : ℕ
  pub lang_name : String
  pub allocator : Option (ℕ → Option ℕ)
  pub deallocator : Bool
  pub data_validator : Option (Memory → UniversalData → Bool)

pub record ScalingConfig : Type 0 where
  pub min_producers : ℕ
  pub max_producers : ℕ
  pub min_consumers : ℕ
  pub max_consumers : ℕ
  pub scale_threshold_percent : ℕ
  pub scale_cooldown_ms : ℕ
  pub gpu_preferred : Bool
  pub auto_balance_load : Bool

-- The double `avg_latency_us`, as far as it is looked at.
pub data Latency : Type 0 where
  below_10 between above_100 : Latency

pub record PerformanceStats : Type 0 where
  pub active_producers : ℕ
  pub active_consumers : ℕ
  pub total_operations : ℕ
  pub gpu_operations : ℕ
  pub latency : Latency
  pub last_scale_time : ℕ

-- The static variables. A runtime that is not initialised is none.
pub record Bindings : Type 0 where
  pub registered_runtimes : List (Option LanguageRuntime)
  pub config : ScalingConfig
  pub stats : PerformanceStats

abbrev pub runtime_count : ℕ
runtime_count = 16

abbrev pub zero_config : ScalingConfig
zero_config = record {
  min_producers = 0;
  max_producers = 0;
  min_consumers = 0;
  max_consumers = 0;
  scale_threshold_percent = 0;
  scale_cooldown_ms = 0;
  gpu_preferred = false;
  auto_balance_load = false;
}

-- The static variables as the program starts.
abbrev pub start : Bindings
start = record {
  registered_runtimes = replicate runtime_count none;
  config = zero_config;
  stats = record {
    active_producers = 0;
    active_consumers = 0;
    total_operations = 0;
    gpu_operations = 0;
    latency = below_10;
    last_scale_time = 0;
  };
}

unfoldable pub register_language_runtime : Bindings → ℕ → LanguageRuntime → Bool × Bindings
register_language_runtime s lang runtime =
    if leb runtime_count lang
    then (false, s)
    else (true, record s { registered_runtimes = set s.registered_runtimes lang (some runtime) })

unfoldable pub unregister_language_runtime : Bindings → ℕ → Bool × Bindings
unregister_language_runtime s lang =
    if leb runtime_count lang
    then (false, s)
    else (true, record s { registered_runtimes = set s.registered_runtimes lang none })

unfoldable pub get_language_runtime : Bindings → ℕ → Option LanguageRuntime
get_language_runtime s lang =
    if leb runtime_count lang then none else get_or s.registered_runtimes lang none

-- The block for `size` bytes, where `malloc` would give `block`.
unfoldable pub called_allocator : Option (ℕ → Option ℕ) → ℕ → Option ℕ → Option ℕ
called_allocator none size block = block
called_allocator (some f) size block = f size

unfoldable pub allocate : Option LanguageRuntime → ℕ → Option ℕ → Option ℕ
allocate none size block = block
allocate (some r) size block = called_allocator r.allocator size block

unfoldable pub filled : Memory → List ℕ → ℕ → ℕ → Option ℕ → Option UniversalData × Memory
filled m bytes type_id lang none = (none, m)
filled m bytes type_id lang (some p) = (
  some (record { data_ptr = p; size = length bytes; type_id = type_id; source_lang = lang }),
  store m p bytes,
)

-- `create_universal_data`, with the bytes at `data`, and whether the first `malloc` succeeds.
unfoldable pub create_universal_data :
    Bindings → Memory → Bool → Option ℕ → List ℕ → ℕ → ℕ → Option UniversalData × Memory
create_universal_data s m allocated block bytes type_id lang =
    if allocated
    then filled m bytes type_id lang (allocate (get_language_runtime s lang) (length bytes) block)
    else (none, m)

-- The direct copy, which keeps every other field.
unfoldable pub copied : Memory → UniversalData → Option ℕ → Option UniversalData × Memory
copied m src none = (none, m)
copied m src (some p) =
    (some (record src { data_ptr = p }), store m p (load m src.data_ptr src.size))

unfoldable pub is_valid : Option (Memory → UniversalData → Bool) → Memory → UniversalData → Bool
is_valid none m dst = true
is_valid (some f) m dst = f m dst

unfoldable pub converted :
    Memory → UniversalData → ℕ → LanguageRuntime → Option ℕ → Option UniversalData × Memory
converted m src target_lang r none = (none, m)
converted m src target_lang r (some p) =
    let dst = record src { data_ptr = p; source_lang = target_lang } in
    let m' = store m p (load m src.data_ptr src.size) in
    if is_valid r.data_validator m' dst then (some dst, m') else (none, m')

unfoldable pub convert_with :
    Memory → UniversalData → ℕ → Option ℕ → Option LanguageRuntime → Option UniversalData × Memory
convert_with m src target_lang block none = copied m src block
convert_with m src target_lang block (some r) =
    converted m src target_lang r (allocate (some r) src.size block)

-- `convert_data_for_language`. The answer false is none; what `dst` then holds is left out.
unfoldable pub convert_data_for_language :
    Bindings → Memory → UniversalData → ℕ → Option ℕ → Option UniversalData × Memory
convert_data_for_language s m src target_lang block =
    convert_with m src target_lang block (get_language_runtime s target_lang)

-- Who takes a block back: the runtime of a language, or `free`.
pub data Owner : Type 0 where
  language : ℕ → Owner
  libc : Owner

unfoldable pub taken_back : ℕ → Option LanguageRuntime → Owner
taken_back lang none = libc
taken_back lang (some r) = if r.deallocator then language lang else libc

-- `free_universal_data`: to whom it gives the block.
unfoldable pub free_universal_data : Bindings → UniversalData → Owner
free_universal_data s data_of =
    taken_back data_of.source_lang (get_language_runtime s data_of.source_lang)
