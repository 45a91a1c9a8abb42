-- ===== src/Ntp/Tests.antt =====
-- The clock tool at concrete names, answers and records.
use atari_sysv_sp.Base.{
  ℕ, ◌-◌, ◌≤◌, ◌≡◌, refl, true, false, none, some, get_or, List, [], ◌∷◌, ◌++◌, take, length, arith,
}
use atari_sysv_sp.Ntp.Dns.{skipname, label, after_label, header, dns_query, dns_answer}
use atari_sysv_sp.Ntp.Dns.Names.{root, pointer, name_bytes, AllLabels}
use atari_sysv_sp.Ntp.Dns.Query.{IsSpelling, dns_query_lem}
use atari_sysv_sp.Ntp.Dns.Answers.{Resource, packed, addresses, dns_answer_lem}
use atari_sysv_sp.Ntp.Records.{
  Entry, boot_time, other, Adm, Shift, is_empty, is_boot, last_boot, around, magnitude, are_early,
  shifted, moves, shift_all, count_moves, shift_from, unmoved, shift_file,
}
use atari_sysv_sp.Ntp.Records.Again.{shift_file-again}

-- "ab.c"
abbrev host : List ℕ
host = 97 ∷ 98 ∷ 46 ∷ 99 ∷ []

abbrev question : List ℕ
question =
    0 ∷ 7 ∷ 1 ∷ 0 ∷ 0 ∷ 1 ∷ 0 ∷ 0 ∷ 0 ∷ 0 ∷ 0 ∷ 0 ∷ 2 ∷ 97 ∷ 98 ∷ 1 ∷ 99 ∷ 0 ∷ 0 ∷ 1 ∷ 0 ∷ 1 ∷ []

asked : dns_query 7 host ≡ some question
unfolding dns_query header label after_label
asked = refl

dns_query_example :
    (ls : List (List ℕ)) × AllLabels ls
    × IsSpelling ls host
    × (question ≡ header 7 ++ (name_bytes ls root ++ (0 ∷ 1 ∷ 0 ∷ 1 ∷ [])))
    × (length question ≤ 512)
    × (skipname question 12 ≡ some (length question - 4))
dns_query_example = dns_query_lem 7 host question asked

-- Another name for the host, then its address; both records' names point to the question.
abbrev records : List Resource
records =
    record {
      labels = [];
      tail = pointer 192 12;
      type_hi = 0;
      type_lo = 5;
      about = 0 ∷ 1 ∷ 0 ∷ 0 ∷ 0 ∷ 9 ∷ [];
      rdata = 1 ∷ 100 ∷ 0 ∷ [];
    }
    ∷ record {
      labels = [];
      tail = pointer 192 12;
      type_hi = 0;
      type_lo = 1;
      about = 0 ∷ 1 ∷ 0 ∷ 0 ∷ 0 ∷ 9 ∷ [];
      rdata = 10 ∷ 0 ∷ 2 ∷ 3 ∷ [];
    }
    ∷ []

abbrev labels : List (List ℕ)
labels = (97 ∷ 98 ∷ []) ∷ (99 ∷ []) ∷ []

abbrev answer : List ℕ
answer =
    (0 ∷ 7 ∷ 129 ∷ 128 ∷ 0 ∷ 1 ∷ 0 ∷ 2 ∷ 0 ∷ 0 ∷ 0 ∷ 0 ∷ [])
    ++ (name_bytes labels root ++ ((0 ∷ 1 ∷ 0 ∷ 1 ∷ []) ++ packed records []))

same_id : (get_or answer 0 0 ≡ get_or question 0 0) × (get_or answer 1 0 ≡ get_or question 1 0)
same_id = (refl, refl)

dns_answer_example : dns_answer question answer 4 ≡ take 4 (addresses records)
dns_answer_example =
    dns_answer_lem question answer labels root (0 ∷ 1 ∷ 0 ∷ 1 ∷ []) records [] 4 same_id.0 same_id.1
      refl refl ((omega arith, omega arith, (omega arith, omega arith, tt))) tt refl
      (
        record { labels_in = tt; tail_in = refl; about_in = refl; rdata_in = omega arith },
        (record { labels_in = tt; tail_in = refl; about_in = refl; rdata_in = omega arith }, tt),
      )
      refl

-- A boot record and one after it, stamped an hour early.
abbrev boot : Entry
boot = record { kind = boot_time; stamp = 10000 }

abbrev level : Entry
level = record { kind = other; stamp = 10005 }

abbrev moved : Shift
moved = shift_file true 3600 10020 false 13620 false (boot ∷ level ∷ [])

moved-count : moved.count ≡ 2
unfolding shift_file last_boot is_boot shift_from count_moves moves is_empty
moved-count = refl

shift_file-again_example :
    shift_file true 3600 0 true 14000 false moved.file ≡ unmoved false moved.file
unfolding is_boot
shift_file-again_example =
    shift_file-again 3600 [] boot (level ∷ []) refl (refl, tt) (omega arith) (omega arith) 10020
      13620 14000 false true false (omega arith) (λ e. absurd (omega (arith, moved-count, e)))

-- A second run that comes later finds the moved records, and moves them again.
later_run : (shift_file true 3600 0 true 16400 false moved.file).count ≡ 2
unfolding shift_file last_boot is_boot shift_from shift_all shifted is_empty are_early around
    magnitude count_moves moves
later_run = refl

abbrev adm : Adm
adm = record {
  wtmp = some (boot ∷ level ∷ []);
  utmp = none;
  wtmpx = none;
  utmpx = some (level ∷ []);
}
