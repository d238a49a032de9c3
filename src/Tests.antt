-- ===== src/Tests.antt =====
-- Runs of the modelled code and uses of its theorems on concrete inputs: a small command table, typed
-- lines, addresses, and vectors of numbers.
use mksh.Prelude.{
  Bool, ltb, ℕ, ◌<◌, ◌≡◌, ◌≢◌, refl, ◌↔◌, true, false, ◌&&◌, none, some, List, [], ◌∷◌, ◌++◌, arith,
  leb,
}
use mksh.Cstr.{Bytes, str_eq, is_space, is_digit, value, value_from}
use mksh.Vector.{
  Vector, vector_init, vector_ensure, vector_set, vector_set_index, vector_empty_slot,
  vector_lookup, vector_lookup_ensure, vector_unset, IsVector,
}
use mksh.Vector.Ensure.{Ensured, vector_ensure_lem, vector_init-IsVector}
use mksh.Vector.View.{Written, vector_set_index_lem, vector_lookup_ensure_lem}
use mksh.Vector.Empty.{IsFirstFree, vector_set_lem}
use mksh.Vector.Unset.{Removed, vector_unset_lem}
use mksh.Vector.Dense.{Holds, vector_init-Holds, vector_set-Holds}
use mksh.Match.{partly_match, exact_match, no_match}
use mksh.Match.Ipv4.{bad_octet, at_dot, ipv4_walk, cmd_ipv4_match, cmd_ipv4_prefix_match}
use mksh.Match.Ipv4.Quad.{AllDigits, IsOctet, Octets, cmd_ipv4_match-Octets}
use mksh.Match.Ipv4.Slash.{cmd_ipv4_prefix_match-mask, cmd_ipv4_prefix_match-slash}
use mksh.Match.Range.{cmd_range_match}
use mksh.Match.Range.Decimal.{IsDecimal, cmd_range_match-decimal, cmd_range_match-negative}
use mksh.Command.Element.{Desc, Element, codes}
use mksh.Command.Strvec.{is_break, cmd_make_strvec, cmd_make_strvec_old}
use mksh.Command.Strvec.Join.{AllWords, join, cmd_make_strvec_old-join}
use mksh.Command.Strvec.Words.{line_words, Answer, cmd_make_strvec_old-Answer}
use mksh.Command.Strvec.Quotes.{Resolved, cmd_make_strvec-Answer}
use mksh.Command.Filter.{
  Slots, by_completion, by_string, filter_slots, fault, is_cmd_ambiguous, cmd_filter_by_completion,
  cmd_filter_by_string,
}
use mksh.Command.Filter.Keeps.{AllSlots, Takes, filter_slots-AllSlots}
use mksh.Command.Filter.Ambiguous.{is_cmd_ambiguous-not-fault}
use mksh.Command.Execute.Treat.{Lone}
use mksh.Command.Execute.Safe.{cmd_execute_command-not-crash, cmd_execute_command_strict-not-crash}
use mksh.Command.Execute.{crash, cmd_execute_command, cmd_execute_command_strict}
use mksh.Command.Execute.Sound.{
  Justified, cmd_execute_command-Justified, cmd_execute_command_strict-Justified,
}
use mksh.Command.Descvec.{cmd_make_descvec, out_of_fuel}
use mksh.Command.Descvec.Ends.{cmd_make_descvec-ends}
use mksh.Command.Complete.{cmd_complete_command, cmd_lcd}
use mksh.Command.Complete.Answers.{Answered, cmd_complete_command-Answers}
use mksh.Command.Complete.Lcd.{AllAgree, cmd_lcd-AllAgree}
use mksh.Nodes.{Heap, write}
use mksh.Nodes
use mksh.Nodes.Chain.{Cells, node}
use mksh.Nodes.Linked.{IsLinked}
use mksh.Linklist.{LinkList, listnode_add_sort, listnode_add_after}
use mksh.Linklist.Sort.{IsList, Gives, add_cell, listnode_add_sort-IsList}
use mksh.Linklist.After.{Links, listnode_add_after-Links}
use mksh.ThreadList.{ThreadList, thread_list_delete}
use mksh.ThreadList.Moves.{Taken, thread_list_delete-Taken}
use mksh.Prelude.Int.{ℤ, pos, negsuc}
use mksh.Timeval.{timeval_adjust}
use mksh.Timeval.Adjust.{Bounded, timeval_adjust-Bounded}
use mksh.Thread.{
  thread_read, thread_write, thread_event, thread_unused, val, Thread, Master, thread_master_create,
  mem, set_list, set_thread, thread_list_add, head, trim, thread_trim_head, get, thread_get,
  set_union, thread_add_read, thread_add_write, thread_add_event,
}
use mksh.Thread.Schedule.{Round, fetch_round, thread_fetch, fetched, timeout}
use mksh.Thread.Members.{mem-here}
use mksh.Thread.Valid.{Valid}
use mksh.Thread.Start.{Answers, thread_add_read-Answers}
use mksh.Thread.Fetch
use mksh.Thread.Rounds.{fetch_round-Ends, an_event, thread_fetch-served}
use mksh.Thread.Reach.{
  Reached, created, called, Safe, add_event, cancel, call, Reached-Safe, Reached-Valid,
}
use mksh.VtyshConfig.{
  Config, str_lt, config_add_line, config_del_line, config_del_line_byleft, config_get,
}
use mksh.VtyshConfig.Lines.{Sorted, config_add_line-Sorted}
use mksh.VtyshConfig.Sections.{Section, config_get-Section}
use mksh.Vtysh.{auth_enable_node}
use mksh.Vtysh.Login.{Tried, attempts, vtysh_execute-Tried}
use mksh.Utils.{bad_ip_address, is_mac_valid, is_number}
use mksh.Utils.Ip.{bad_ip_address-ipv4}
use mksh.Utils.Mac.{Pairs, is_mac_valid-Pairs}
use mksh.Utils.Number.{is_number-AllDigits}

abbrev text : Bytes → Desc
text cmd = record { cmd = cmd; str = some [] }

abbrev word : Bytes → List Desc
word cmd = text cmd ∷ []

abbrev show_version : Element
show_version = record {
  string = codes "show version";
  func = 1;
  doc = [];
  daemon = false;
  strvec = word (codes "show") ∷ word (codes "version") ∷ [];
  cmdsize = 2;
}

abbrev show_address : Element
show_address = record {
  string = codes "show A.B.C.D";
  func = 2;
  doc = [];
  daemon = true;
  strvec = word (codes "show") ∷ word (codes "A.B.C.D") ∷ [];
  cmdsize = 2;
}

abbrev echo : Element
echo = record {
  string = codes "echo .LINE";
  func = 3;
  doc = [];
  daemon = false;
  strvec = word (codes "echo") ∷ word (codes ".LINE") ∷ [];
  cmdsize = 2;
}

abbrev table : Slots
table = some show_version ∷ none ∷ some show_address ∷ some echo ∷ []

table-Lone : AllSlots Lone table
table-Lone = (
  (λ _. (text (codes "show"), refl), (λ _. (text (codes "version"), refl), tt)),
  (
    (λ _. (text (codes "show"), refl), (λ _. (text (codes "A.B.C.D"), refl), tt)),
    ((λ _. (text (codes "echo"), refl), (λ _. (text (codes ".LINE"), refl), tt)), tt),
  ),
)

abbrev typed : List Bytes
typed = codes "sh" ∷ codes "ver" ∷ []

cmd_execute_command-Justified_example :
    Justified by_completion table typed (cmd_execute_command typed table)
cmd_execute_command-Justified_example = cmd_execute_command-Justified typed table

cmd_execute_command_strict-Justified_example :
    Justified by_string table typed (cmd_execute_command_strict typed table)
cmd_execute_command_strict-Justified_example = cmd_execute_command_strict-Justified typed table

abbrev shouted : List Bytes
shouted = codes "echo" ∷ codes "one" ∷ codes "two" ∷ []

cmd_execute_command-not-crash_example : cmd_execute_command shouted table ≢ crash
cmd_execute_command-not-crash_example = cmd_execute_command-not-crash shouted table table-Lone

cmd_execute_command_strict-not-crash_example : cmd_execute_command_strict shouted table ≢ crash
cmd_execute_command_strict-not-crash_example =
    cmd_execute_command_strict-not-crash shouted table table-Lone

abbrev line : Bytes
line = codes " show  version "

cmd_make_strvec_old-Answer_example : Answer (line_words line) (cmd_make_strvec_old (some line))
cmd_make_strvec_old-Answer_example = cmd_make_strvec_old-Answer line (omega arith)

typed-AllWords : AllWords typed
typed-AllWords = (
  λ e. cc,
  unfold is_break in unfold is_space in (refl, (refl, tt)),
  (λ e. cc, unfold is_break in unfold is_space in (refl, (refl, (refl, tt))), tt),
)

cmd_make_strvec_old-join_example :
    (v : Vector Bytes) × (cmd_make_strvec_old (some (join typed)) ≡ some (some v)) × Holds v typed
cmd_make_strvec_old-join_example =
    cmd_make_strvec_old-join (codes "sh") (codes "ver" ∷ []) typed-AllWords (λ e. omega arith)
      (λ e. omega arith) (omega arith)

abbrev quoting : Bytes
quoting = codes "name " ++ b'"' ∷ (codes "first floor" ++ b'"' ∷ [])

cmd_make_strvec-Answer_example :
    (t : Bytes) × Resolved quoting t × Answer (line_words t) (cmd_make_strvec (some quoting))
cmd_make_strvec-Answer_example = cmd_make_strvec-Answer quoting (omega arith)

-- An empty vector with room for two numbers.
abbrev two : Vector ℕ
two = vector_init 2

two-IsVector : IsVector two
two-IsVector = vector_init-IsVector 2 (omega arith)

two-Holds : Holds two []
two-Holds = vector_init-Holds 2 (omega arith)

vector_ensure_example : Ensured two 9 (vector_ensure two 9)
vector_ensure_example = vector_ensure_lem two 9 two-IsVector (omega arith)

vector_set_index_example :
    (w : Vector ℕ) × (vector_set_index two 5 (some 7) ≡ some (w, 5)) × Written two w 5 (some 7)
vector_set_index_example = vector_set_index_lem two 5 (some 7) two-IsVector (omega arith)

vector_set_example :
    (w : Vector ℕ) × (vector_set two (some 7) ≡ some (w, vector_empty_slot two))
    × IsFirstFree two (vector_empty_slot two)
    × Written two w (vector_empty_slot two) (some 7)
vector_set_example = vector_set_lem two (some 7) two-IsVector (omega (arith, two-Holds.size))

vector_lookup_ensure_example :
    (w : Vector ℕ) × (vector_lookup_ensure two 3 ≡ some (w, none))
    × IsVector w
    × (3 < w.alloced)
    × ((j : ℕ) → vector_lookup w j ≡ vector_lookup two j)
vector_lookup_ensure_example =
    vector_lookup_ensure_lem two 3 none two-IsVector (omega arith) (two-Holds.slots 3)

vector_unset_example : (w : Vector ℕ) × (vector_unset two 1 ≡ some w) × Removed two w 1
vector_unset_example = vector_unset_lem two 1 two-IsVector

vector_set-Holds_example :
    (w : Vector ℕ) × (vector_set two (some 7) ≡ some (w, 0)) × Holds w (7 ∷ [])
vector_set-Holds_example = vector_set-Holds two [] two-Holds 7 (omega arith)

abbrev seven : Vector ℕ
seven = (vector_set-Holds two [] two-Holds 7 (omega arith)).0

seven-Holds : Holds seven (7 ∷ [])
seven-Holds = (vector_set-Holds two [] two-Holds 7 (omega arith)).2

abbrev home : Bytes
home = codes "127.0.0.1"

cmd_ipv4_match-Octets_example : (cmd_ipv4_match (some home) ≡ exact_match) ↔ Octets 4 home
cmd_ipv4_match-Octets_example = cmd_ipv4_match-Octets home

home-exact : cmd_ipv4_match (some home) ≡ exact_match
unfolding cmd_ipv4_match ipv4_walk bad_octet at_dot is_digit value_from
home-exact = refl

home-Octets : Octets 4 home
home-Octets = cmd_ipv4_match-Octets_home.0 home-exact
  where
    cmd_ipv4_match-Octets_home : (cmd_ipv4_match (some home) ≡ exact_match) ↔ Octets 4 home
    cmd_ipv4_match-Octets_home = cmd_ipv4_match-Octets home

digits_24 : AllDigits (codes "24")
unfolding is_digit
digits_24 = (refl, (refl, tt))

-- A mask that is 1 modulo 2 ^ 32.
abbrev wrapping : Bytes
wrapping = codes "4294967297"

cmd_ipv4_prefix_match-mask_example :
    cmd_ipv4_prefix_match (some (home ++ b'/' ∷ wrapping)) ≡ exact_match
unfolding value_from
cmd_ipv4_prefix_match-mask_example =
    cmd_ipv4_prefix_match-mask home b'4' (codes "294967297") home-Octets digits
  where
    digits : AllDigits wrapping
    digits =
        unfold is_digit in
        (refl, (refl, (refl, (refl, (refl, (refl, (refl, (refl, (refl, (refl, tt))))))))))

IsOctet-24 : IsOctet (codes "24")
unfolding value_from
IsOctet-24 = record { digits = digits_24; short = omega arith; small = omega arith }

cmd_ipv4_prefix_match-slash_example :
    cmd_ipv4_prefix_match (some (codes "24" ++ b'/' ∷ home)) ≡ cmd_ipv4_prefix_match (some home)
cmd_ipv4_prefix_match-slash_example = cmd_ipv4_prefix_match-slash (codes "24") home IsOctet-24

IsDecimal-24 : IsDecimal (codes "24")
IsDecimal-24 = record { digits = digits_24; some_digit = λ e. cc }

IsDecimal-4094 : IsDecimal (codes "4094")
IsDecimal-4094 = record {
  digits = unfold is_digit in (refl, (refl, (refl, (refl, tt))));
  some_digit = λ e. cc;
}

abbrev vlans : Bytes
vlans = b'<' ∷ (codes "24" ++ b'-' ∷ (codes "4094" ++ b'>' ∷ []))

cmd_range_match-decimal_example : cmd_range_match vlans (some (codes "24")) ≡ (
    leb (value (codes "24")) (value (codes "24"))
    && leb (value (codes "24")) (value (codes "4094")))
unfolding value_from
cmd_range_match-decimal_example =
    cmd_range_match-decimal (codes "24") (codes "4094") [] IsDecimal-24 IsDecimal-4094 (omega arith)
      (omega arith) (codes "24") IsDecimal-24 (omega arith)

-- The number that lies 100 below 2 ^ 64.
abbrev wrapped : Bytes
wrapped = codes "18446744073709551516"

cmd_range_match-negative_example : cmd_range_match vlans (some (b'-' ∷ wrapped)) ≡ true
unfolding value_from
cmd_range_match-negative_example =
    cmd_range_match-negative (codes "24") (codes "4094") [] IsDecimal-24 IsDecimal-4094
      (omega arith) (omega arith) wrapped (record { digits = digits; some_digit = λ e. cc })
  where
    digits : AllDigits wrapped
    digits =
        unfold is_digit in
        (
          refl,
          (
            refl,
            (
              refl,
              (
                refl,
                (
                  refl,
                  (
                    refl,
                    (
                      refl,
                      (
                        refl,
                        (
                          refl,
                          (
                            refl,
                            (
                              refl,
                              (
                                refl,
                                (refl, (refl, (refl, (refl, (refl, (refl, (refl, (refl, tt)))))))),
                              ),
                            ),
                          ),
                        ),
                      ),
                    ),
                  ),
                ),
              ),
            ),
          ),
        )

abbrev TwoWords : Element → Type 0
TwoWords e = e.cmdsize ≡ 2

filter_slots-AllSlots_example :
    AllSlots
      (λ e. TwoWords e × Takes by_completion (codes "ver") 1 e)
      (filter_slots by_completion (codes "ver") 1 table no_match).0
filter_slots-AllSlots_example =
    filter_slots-AllSlots by_completion (codes "ver") 1 TwoWords table no_match
      (refl, (refl, (refl, tt)))

is_cmd_ambiguous-not-fault_example :
    ((is_cmd_ambiguous
        (codes "ver")
        (cmd_filter_by_completion (codes "ver") table 1).0
        1
        partly_match).0
      ≢ fault)
    × ((is_cmd_ambiguous
          (codes "ver")
          (cmd_filter_by_string (codes "ver") table 1).0
          1
          partly_match).0
        ≢ fault)
is_cmd_ambiguous-not-fault_example = is_cmd_ambiguous-not-fault (codes "ver") table 1 partly_match

cmd_make_descvec-ends_example : cmd_make_descvec (codes "show (version|A.B.C.D)") none ≢ out_of_fuel
cmd_make_descvec-ends_example = cmd_make_descvec-ends (codes "show (version|A.B.C.D)") none

cmd_complete_command-Answers_example :
    Answered (some (codes "v")) (cmd_complete_command (codes "sh" ∷ []) (some (codes "v")) table)
cmd_complete_command-Answers_example =
    cmd_complete_command-Answers (codes "sh" ∷ []) (some (codes "v")) table

cmd_lcd-AllAgree_example :
    AllAgree
      (cmd_lcd (codes "version" ∷ codes "verbose" ∷ []))
      (codes "version")
      (codes "verbose" ∷ [])
cmd_lcd-AllAgree_example = cmd_lcd-AllAgree (codes "version") (codes "verbose") []

bad_ip_address-ipv4_example :
    ((bad_ip_address (some home) ≡ true) ↔ (cmd_ipv4_match (some home) ≡ exact_match))
    × ((bad_ip_address (some home) ≡ true) ↔ Octets 4 home)
bad_ip_address-ipv4_example = bad_ip_address-ipv4 home

is_mac_valid-Pairs_example :
    (is_mac_valid (codes "00:1a:2B-3c:4d:5e") ≡ true) ↔ Pairs 6 (codes "00:1a:2B-3c:4d:5e")
is_mac_valid-Pairs_example = is_mac_valid-Pairs (codes "00:1a:2B-3c:4d:5e")

is_number-AllDigits_example :
    (is_number (codes "24") ≡ true) ↔ ((codes "24" ≢ []) × AllDigits (codes "24"))
is_number-AllDigits_example = is_number-AllDigits (codes "24")

-- Two nodes on the heap.
abbrev pair : Heap ℕ
unfolding write
pair = write (write (λ a. none) 1 (some (node (some 2) none 10))) 2 (some (node none (some 1) 20))

abbrev cells : Cells ℕ
cells = (1, 10) ∷ (2, 20) ∷ []

abbrev both : Nodes.Ends
both = record { head = some 1; tail = some 2 }

abbrev numbers : LinkList ℕ
numbers = record { ends = both; count = 2; cmp = some ltb; del = false }

abbrev threads : ThreadList
threads = record { ends = both; count = 2 }

pair-IsLinked : IsLinked pair both cells
unfolding write
pair-IsLinked = record {
  head = refl;
  tail = refl;
  chain = (refl, (refl, tt));
  distinct = ((ground arith, tt), (tt, tt));
}

listnode_add_sort-IsList_example :
    Gives
      (λ m k. IsList k m (add_cell (some ltb) (3, 15) cells) × (m.cmp ≡ some ltb) × (m.del ≡ false))
      (listnode_add_sort 3 3 numbers 15 pair)
unfolding write
listnode_add_sort-IsList_example =
    listnode_add_sort-IsList 3 3 numbers 15 pair cells
      (record { linked = pair-IsLinked; count = refl }) refl (omega arith)

listnode_add_after-Links_example :
    Links numbers ((3, 15) ∷ cells) (listnode_add_after 3 numbers none 15 pair)
    × Links numbers
        ((1, 10) ∷ (3, 15) ∷ (2, 20) ∷ [])
        (listnode_add_after 3 numbers (some 1) 15 pair)
unfolding write
listnode_add_after-Links_example =
    listnode_add_after-Links pair numbers 3 15 [] 1 10 ((2, 20) ∷ []) pair-IsLinked refl

thread_list_delete-Taken_example :
    Taken pair cells ((2, 20) ∷ []) 1 10 (thread_list_delete threads 1 pair)
thread_list_delete-Taken_example =
    thread_list_delete-Taken pair threads [] 1 10 ((2, 20) ∷ [])
      (record { linked = pair-IsLinked; count = refl })

timeval_adjust-Bounded_example :
    Bounded
      (record { sec = pos 3; usec = negsuc 1500000 })
      (timeval_adjust (record { sec = pos 3; usec = negsuc 1500000 }))
timeval_adjust-Bounded_example =
    timeval_adjust-Bounded (record { sec = pos 3; usec = negsuc 1500000 })

-- The scheduler with one event.
abbrev greet : ℤ → Thread
greet n = record { type = thread_event; func = 1; arg = 2; u = val n }

abbrev busy : Master
busy = set_list thread_event (7 ∷ []) (
    set_thread 7 (greet (pos 3))
      (set_thread 7 (greet (pos 0)) (record thread_master_create { alloc = 1 })))

busy-Reached : Reached busy
unfolding thread_add_event thread_get thread_trim_head trim head get set_union thread_list_add mem
busy-Reached = called (add_event 7 1 2 (pos 3)) busy created refl refl

abbrev soon : Round
soon = record {
  now = record { sec = pos 5; usec = pos 0 };
  wait_now = record { sec = pos 5; usec = pos 1 };
  select = λ readfd writefd wait. timeout;
}

Reached-Safe_example : Safe (call (cancel 7) busy)
Reached-Safe_example = Reached-Safe busy (cancel 7) busy-Reached (greet (pos 3), (refl, in_use))
  where
    in_use : thread_event ≡ thread_unused → ⊥
    in_use e = cc

fetch_round-Ends_example : Fetch.Ends soon busy (fetch_round soon busy)
fetch_round-Ends_example = fetch_round-Ends soon busy (Reached-Valid busy-Reached)

thread_fetch-served_example :
    (t : Thread) × ((m' : Master) × ((thread_fetch (soon ∷ []) busy ≡ some (fetched t m'))
        × Valid m'))
thread_fetch-served_example =
    thread_fetch-served soon [] busy (Reached-Valid busy-Reached) (an_event 7 (mem-here 7 []))

thread_add_read-Answers_example :
    Answers busy thread_read 4 5 0 (thread_add_read 8 busy 4 5 0)
    × Answers busy thread_write 4 5 0 (thread_add_write 8 busy 4 5 0)
thread_add_read-Answers_example =
    thread_add_read-Answers 8 busy 4 5 0 (Reached-Valid busy-Reached) refl

abbrev lines : List Bytes
lines = codes "ip" ∷ codes "mtu" ∷ []

config_add_line-Sorted_example :
    Sorted (config_add_line lines (codes "host"))
    × Sorted (config_del_line lines (codes "host"))
    × Sorted (config_del_line_byleft lines (codes "host"))
unfolding str_lt
config_add_line-Sorted_example = config_add_line-Sorted lines (codes "host") (refl, tt)

abbrev configvec : Vector (List Config)
configvec = vector_init 1

configvec-Holds : Holds configvec []
configvec-Holds = vector_init-Holds 1 (omega arith)

config_get-Section_example :
    Section configvec 5 (codes "port 1") none (config_get configvec 5 (codes "port 1"))
config_get-Section_example =
    config_get-Section configvec 5 (codes "port 1") none (vector_init-IsVector 1 (omega arith))
      (omega arith) (configvec-Holds.slots 5)

-- A wrong password and the right one.
abbrev passwords : List Bytes
passwords = codes "root" ∷ codes "mk" ∷ []

abbrev is_mk : Bytes → Bool
is_mk s = str_eq s (codes "mk")

vtysh_execute-Tried_example :
    Tried is_mk passwords 0
      (attempts is_mk (λ k. table) passwords (record { node = auth_enable_node; trytimes = 0 }))
vtysh_execute-Tried_example = vtysh_execute-Tried is_mk (λ k. table) passwords
