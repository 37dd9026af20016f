-- ===== src/Tests/Archive.antt =====
-- pkg/archive/cache.go: an archive that one caller holds while others come and go.
use kubechecks.Common.{
  codes, false, List, [], ◌∷◌, some, ◌≡◌, refl, insert, lookup, bytes_eq, bytes_instance, nat_eq,
}
use kubechecks.Archive.{
  Cache, Attempt, failed, fetched, failure, gave_up, extraction, acquire, flight, is_retriable,
  get_or_download,
}
use kubechecks.Archive.Leases.{
  Use, flies, acquires, releases, cleans, use_all, count_all, count_once, is_held, place,
  place-use_all,
}
use kubechecks.Archive.Attempts.{last_of, get_or_download-gave_up}

abbrev held_archive : Cache
held_archive = record {
  entries = (codes "s", record { extracted_path = codes "/x"; last_used = 0; ref_count = 1 }) ∷ [];
  ttl = 5;
  removed = [];
}

abbrev busy : List Use
busy = acquires (codes "s") 1 ∷ (cleans 9 ∷ (releases (codes "s") 10 ∷ (cleans 20 ∷ [])))

place-use_all_example :
    place (codes "s") (use_all held_archive busy) ≡ some (codes "/x", count_all (codes "s") 1 busy)
unfolding place is_held count_once lookup bytes_eq
place-use_all_example = place-use_all (codes "s") (codes "/x") 1 held_archive busy refl refl

abbrev works : Attempt
works = record {
  interrupted = false;
  download = fetched (codes "/x");
  others = (λ c. c);
  ctx_ended = false;
  now = 3;
}

-- While one caller's archive cannot be extracted, another downloads it and takes a reference.
abbrev broken : Attempt
broken = record {
  interrupted = false;
  download = failed extraction;
  others = (λ c. use_all c (flies (codes "/x") (codes "s") works ∷ (acquires (codes "s") 3 ∷ [])));
  ctx_ended = false;
  now = 3;
}

abbrev empty_cache : Cache
empty_cache = record { entries = []; ttl = 5; removed = [] }

get_or_download-gave_up_example :
    ((get_or_download (codes "/x") empty_cache (codes "s") 3 broken works works).0
      ≡ failure (gave_up extraction))
    × (place
          (codes "s")
          (get_or_download (codes "/x") empty_cache (codes "s") 3 broken works works).1
        ≡ some (codes "/x", 1))
    × (last_of (get_or_download (codes "/x") empty_cache (codes "s") 3 broken works works).1.removed
        ≡ some (codes "/x"))
unfolding acquire flight lookup is_retriable use_all place insert bytes_eq
get_or_download-gave_up_example =
    get_or_download-gave_up (codes "/x") empty_cache (codes "s") 3 broken works works extraction 0
      refl refl refl refl
