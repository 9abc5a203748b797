-- ===== src/Grab/Client/Bytes.antt =====
-- grab/client.go and grab/response.go: a download that is kept in memory, and its Bytes.
use downloadmgr.Prelude.{
  ◌∙◌, sym, ℕ, ◌≡◌, ◌⊎◌, inl, inr, arith, subst, true, List, none, some, Text, Option-cases,
}
use downloadmgr.Transfer.Copy.{AllHonest, body}
use downloadmgr.Grab.Response.{
  get, Request, Response, Content, failed, bytes, bytes_of, err_of, is_complete,
}
use downloadmgr.Grab.Client.{Client, Answers}
use downloadmgr.Grab.Client.Stored.{StoredBy, created, replaced, resumed, buffered}
use downloadmgr.Grab.Client.Contents.{download-body}
use downloadmgr.Grab.Errors.{GrabError}
use downloadmgr.Grab.Client.Rank.{IsUsual}
use downloadmgr.Grab.Client.Ends.{download-IsClosed}
use downloadmgr.Grab.Client.Machine.{
  RunResult, returned, panicking, waiting, running, enough, download,
}
use downloadmgr.Grab.Client.Unchanged.{Left, download-Left}

module _ (encrypt : List ℕ → List ℕ) (join : Text → Text → Text) (c : Client) (world : ℕ → Answers)
    (usual : (i : ℕ) → IsUsual encrypt (world i)) where
  failed_bytes :
      (r : Response) (read : Content) (e : GrabError)
      → r.done ≡ true
      → r.err ≡ some e
      → bytes_of r read ≡ some (failed e)
  unfolding bytes_of err_of is_complete
  failed_bytes r read e done x = ground arith

  stored_bytes :
      (r : Response) (read : Content) (out : List ℕ)
      → r.done ≡ true
      → r.err ≡ none
      → r.request.no_store ≡ true
      → r.saved ≡ some out
      → bytes_of r read ≡ some (bytes out)
  unfolding bytes_of err_of is_complete
  stored_bytes r read out done x s e = ground arith

  buffer_holds :
      (r : Response) (out : List ℕ)
      → r.request.no_store ≡ true
      → StoredBy encrypt c world r out
      → r.saved ≡ some out
  buffer_holds r out s (created old o f d e) = absurd (ground arith)
  buffer_holds r out s (replaced f d e) = e
  buffer_holds r out s (resumed old o f d g k e) = absurd (ground arith)
  buffer_holds r out s (buffered t e) = e

  -- What a run that has returned a closed response shows.
  abbrev Finished : RunResult → Type 0
  Finished (returned r) = r.done ≡ true
  Finished (panicking r) = Unit {0}
  Finished (waiting r) = Unit {0}
  Finished (running r) = Unit {0}

  -- After a download of a GET request that is not stored, whatever `read` an opened file would
  -- give, Bytes does not block. It answers the error of the download, or the whole body that the
  -- origin has delivered, each chunk encrypted where the client asks for it. This is under the
  -- conditions under which every download ends, and with a buffer that takes what it is given.
  pub download-bytes_of :
      (now : ℕ) (req : Request) (read : Content)
      → req.http_request.method ≡ get
      → req.no_store ≡ true
      → AllHonest encrypt c.need_encrypt (world enough).rounds
      → (r : Response) × (download encrypt join c world now req ≡ returned r)
        × (((e : GrabError) × (bytes_of r read ≡ some (failed e)))
            ⊎ (bytes_of r read ≡ some (bytes (body encrypt c.need_encrypt (world enough).rounds))))
  download-bytes_of now req read m s honest =
      let (r, e, closed) = download-IsClosed encrypt join c world usual now req m in
      let (r', e', h) = download-body encrypt join c world usual now req m honest in
      let done : r'.done ≡ true = subst Finished (sym e ∙ e') closed.complete in
      let kept : r'.request.no_store ≡ true =
        subst (Left encrypt join c true) e' (download-Left encrypt join c true world now req s) in
      (
        r',
        e',
        elim (Option-cases r'.err) [
          | inr (x, f) ↦ inl (x, failed_bytes r' read x done f)
          | inl f ↦ elim h [
            | inl g ↦ absurd (ground arith)
            | inr (inl k) ↦ absurd (ground (arith, k.stored))
            | inr (inr (ans, st)) ↦
                inr (stored_bytes r' read _ done f kept (buffer_holds r' _ kept st))
          ]
        ],
      )
