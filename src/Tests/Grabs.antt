-- ===== src/Tests/Grabs.antt =====
-- Downloads of the grab client at a concrete origin.
use downloadmgr.Prelude.{
  Bool, false, ◌+◌, ℕ, ◌%◌, ◌≡◌, refl, arith, ◌⊎◌, true, List, [], ◌∷◌, map, Option, none, some,
  pos, ◌+ℤ◌, Text, codes,
}
use downloadmgr.Grab.Response.{bytes_of, failed, bytes, get, head, Method, Request, Response}
use downloadmgr.Grab.Client.Bytes.{download-bytes_of}
use downloadmgr.Transfer.{Round, copy, eof}
use downloadmgr.Grab.Names.{guess_filename}
use downloadmgr.Grab.Names.Plain.{IsPlain, guess_filename-IsPlain}
use downloadmgr.Grab.Errors.{GrabError}
use downloadmgr.Grab.Client.{
  missing, Client, FileStat, directory, regular, answered, opened, Answers, is_none,
}
use downloadmgr.Grab.Client.Machine.{
  RunResult, returned, panicking, waiting, running, enough, download,
}
use downloadmgr.Grab.Client.Rank.{IsUsual}
use downloadmgr.Transfer.Copy.{body}
use downloadmgr.Grab.Client.Stored.{IsEnded, IsKept, StoredBy, is_answered}
use downloadmgr.Grab.Client.Contents.{download-IsEnded, download-body}
use downloadmgr.Grab.Client.Ends.{IsAccounted, download-IsAccounted}

guessed : guess_filename (codes "/a/../b.txt") [] none ≡ some (codes "b.txt")
unfolding guess_filename
guessed = refl

guess_filename-IsPlain_example : IsPlain (codes "b.txt")
guess_filename-IsPlain_example =
    guess_filename-IsPlain (codes "/a/../b.txt") [] none (codes "b.txt") guessed

abbrev pub plus_one : List ℕ → List ℕ
plus_one = map (λ b. (b + 1) % 256)

abbrev pub join : Text → Text → Text
join a b = b

abbrev pub client : Client
client = record {
  user_agent = codes "grab";
  buffer_size = pos 0;
  can_resume = true;
  need_encrypt = true;
}

abbrev last_round : List ℕ → Round
last_round chunk = record {
  context_is_done = false;
  chunk = chunk;
  read_error = some eof;
  taken = 2;
  write_error = none;
}

-- The remote file has four bytes, of which the local file, if there is one, has the first two.
abbrev answers : FileStat → Answers
answers stat = record {
  cancelled = false;
  now = 7;
  stat = stat;
  http = λ req. answered (record {
    status_code = 200;
    content_length = pos 4;
    request = req;
    disposition = [];
    filename_param = none;
    last_modified = none;
  });
  folder = directory;
  mkdir_error = none;
  open_file = λ mode. opened (1 ∷ 2 ∷ []);
  seek_error = none;
  before_copy_error = none;
  rounds = last_round (3 ∷ 4 ∷ []) ∷ [];
  chtimes_error = none;
  after_copy_error = none;
}

abbrev pub request : Request
request = record {
  http_request = record {
    method = get;
    url = codes "http://a/b";
    path = codes "/b";
    host = codes "a";
    range = none;
    user_agent = [];
  };
  filename = codes "b";
  skip_existing = false;
  no_resume = false;
  no_store = false;
  no_create_directories = false;
  ignore_bad_status_codes = false;
  ignore_remote_time = false;
  size = pos 0;
  buffer_size = pos 0;
  before_copy = false;
  after_copy = false;
  hash = false;
  checksum = [];
  delete_on_error = false;
}

abbrev saved_by : RunResult → Option (List ℕ)
saved_by (returned r) = r.saved
saved_by (panicking r) = none
saved_by (waiting r) = none
saved_by (running r) = none

answers-IsUsual : (stat : FileStat) → IsUsual plus_one (answers stat)
unfolding copy
answers-IsUsual stat = record {
  method_kept = λ req h e. ground arith;
  proper = λ n e. cc;
  ends = λ t. refl;
}

resumed_bytes :
    saved_by (download plus_one join client (λ i. answers (regular 2)) 0 request)
    ≡ some (1 ∷ 2 ∷ 4 ∷ 5 ∷ [])
unfolding download copy ◌+ℤ◌
resumed_bytes = refl

download-IsAccounted_example :
    IsAccounted plus_one
      (λ i. answers (regular 2))
      (download plus_one join client (λ i. answers (regular 2)) 0 request)
download-IsAccounted_example =
    download-IsAccounted plus_one join client (λ i. answers (regular 2)) 0 request
      (λ i req h e. ground arith) refl

-- The folder of the file is a file itself.
abbrev is_panic : RunResult → Bool
is_panic (panicking r) = true
is_panic _ = false

no_folder :
    is_panic (
      download plus_one join client
        (λ i. record (answers missing) { folder = regular 1 })
        0
        request)
    ≡ true
unfolding download copy ◌+ℤ◌
no_folder = refl

-- The request names a folder, the origin has no answer to HEAD, and the file that the response to
-- GET names is there with more bytes than the origin's: the rest of it stays.
abbrev status_of : Method → ℕ
status_of get = 200
status_of head = 405

abbrev old_file : Answers
old_file = record (answers directory) {
  http = λ req. answered (record {
    status_code = status_of req.method;
    content_length = pos 2;
    request = req;
    disposition = [];
    filename_param = none;
    last_modified = none;
  });
  open_file = λ mode. opened (7 ∷ 8 ∷ 9 ∷ []);
}

tail_kept :
    saved_by (download plus_one join client (λ i. old_file) 0 request) ≡ some (4 ∷ 5 ∷ 9 ∷ [])
unfolding download copy ◌+ℤ◌
tail_kept = refl

abbrev pub world : ℕ → Answers
world i = answers (regular 2)

pub world-IsUsual : (i : ℕ) → IsUsual plus_one (world i)
world-IsUsual i = answers-IsUsual (regular 2)

download-IsEnded_example :
    (r : Response) × (download plus_one join client world 0 request ≡ returned r)
    × IsEnded plus_one client world r
download-IsEnded_example = download-IsEnded plus_one join client world world-IsUsual 0 request refl

download-body_example :
    (r : Response) × (download plus_one join client world 0 request ≡ returned r)
    × ((is_none r.err ≡ false)
        ⊎ (IsKept world r
            ⊎ ((is_answered r ≡ true)
                × StoredBy plus_one client world r (body plus_one true (world enough).rounds))))
download-body_example =
    download-body plus_one join client world world-IsUsual 0 request refl
      ((omega arith, λ e. refl), tt)

abbrev unstored : Request
unstored = record request { no_store = true }

download-bytes_of_example :
    (r : Response) × (download plus_one join client world 0 unstored ≡ returned r)
    × (((e : GrabError) × (bytes_of r (bytes []) ≡ some (failed e)))
        ⊎ (bytes_of r (bytes []) ≡ some (bytes (body plus_one true (world enough).rounds))))
download-bytes_of_example =
    download-bytes_of plus_one join client world world-IsUsual 0 unstored (bytes []) refl refl
      ((omega arith, λ e. refl), tt)
