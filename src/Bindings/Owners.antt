-- ===== src/Bindings/Owners.antt =====
-- The blocks of src/language_bindings.c: who gives them and who takes them back.
use universal_multi_segmente.Prelude.{ℕ, ◌≡◌, refl, subst, true, some, none}
use universal_multi_segmente.Capsule.{Memory}
use universal_multi_segmente.Standalone.Bytes.{load, store, load-store_self, length-load}
use universal_multi_segmente.Bindings.{
  UniversalData, LanguageRuntime, Bindings, get_language_runtime, convert_with, copied,
  convert_data_for_language, language, taken_back, free_universal_data,
}

-- Data of a language with a deallocator, converted for a language without a runtime, stands with all
-- its bytes in a block of `malloc`, which the release then gives to that deallocator.
pub convert-mismatches :
    (s : Bindings) (m : Memory) (src : UniversalData) (target_lang p : ℕ) (r : LanguageRuntime)
    → get_language_runtime s target_lang ≡ none
    → get_language_runtime s src.source_lang ≡ some r
    → r.deallocator ≡ true
    → (dst : UniversalData) × (m' : Memory) × (convert_data_for_language s m src target_lang
          (some p)
        ≡ (some dst, m'))
      × (dst.data_ptr ≡ p)
      × (load m' p dst.size ≡ load m src.data_ptr src.size)
      × (free_universal_data s dst ≡ language src.source_lang)
unfolding convert_data_for_language convert_with copied free_universal_data taken_back
convert-mismatches s m src target_lang p r absent present frees = (
  record src { data_ptr = p },
  store m p (load m src.data_ptr src.size),
  rw absent refl,
  refl,
  stored,
  rw (present, frees) refl,
)
  where
    stored :
        load (store m p (load m src.data_ptr src.size)) p src.size ≡ load m src.data_ptr src.size
    stored =
        subst
          (λ n. load (store m p (load m src.data_ptr src.size)) p n ≡ load m src.data_ptr src.size)
          (length-load m src.data_ptr src.size) (load-store_self m p (load m src.data_ptr src.size))
