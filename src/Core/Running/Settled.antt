-- ===== src/Core/Running/Settled.antt =====
-- Refreshes that overlap: what the cache holds behind them.
use tsdns.Prelude.{
  ℕ, suc, ◌≤◌, ◌≡◌, refl, sym, ap, ◌∙◌, List, [], ◌∷◌, ◌++◌, Bytes, Result, ok, err, Error, All,
  All-append, append-nil, arith,
}
use mathlib.Core.Option
use mathlib.Core.Path.{subst}
use tsdns.Core.Record.{Record, RecordRepository}
use tsdns.Core.Regexp.{Regexp}
use tsdns.Core.Cache.Contents.{last_record}
use tsdns.Core.Server.{Server, install}
use tsdns.Core.Server.Contract.{content_of, Contract}
use tsdns.Core.Server.Refresh.{cached, install-cached}
use tsdns.Core.Running.Overlapping.{
  Overlap, opened, shown_after, read_records, install_pending, changed, Next, Run,
}

module _ {R : Type 0} (repo : RecordRepository R) (re : Regexp) where
  module _ (laws : Contract repo)
      (find_keeps_view : (r : R) (d : Bytes)
        → laws.IsValid r
        → laws.view (repo.find r).1 d ≡ laws.view r d) where
    open laws use {IsValid, view, Storable}

    -- A read behind the last change has what the repository holds.
    abbrev IsFresh : R → ℕ → ℕ × Result (List Record) → Type 0
    IsFresh r version (read, found) =
        (read ≤ version)
        × ((rs : List Record)
            → found ≡ ok rs
            → read ≡ version
            → (d : Bytes) → Option.map content_of (last_record d rs) ≡ view r d)

    record IsConsistent (o : Overlap R) : Type 0 where
      valid : IsValid o.server.repository
      bounded : o.shown ≤ o.version
      fresh : o.shown ≡ o.version → (d : Bytes) → cached o.server d ≡ view o.server.repository d
      all_fresh : All (IsFresh o.server.repository o.version) o.pending

    opened-IsConsistent : (s : Server R) → IsValid s.repository → IsConsistent (opened s)
    opened-IsConsistent s v = record {
      valid = v;
      bounded = omega arith;
      fresh = λ e. absurd (omega arith);
      all_fresh = tt;
    }

    IsFresh-same :
        (r s : R) (version : ℕ) (x : ℕ × Result (List Record))
        → ((d : Bytes) → view s d ≡ view r d)
        → IsFresh r version x
        → IsFresh s version x
    IsFresh-same r s version (read, found) same h =
        (h.0, λ rs e now d. h.1 rs e now d ∙ sym (same d))

    IsFresh-later :
        (r s : R) (version : ℕ) (x : ℕ × Result (List Record))
        → IsFresh r version x
        → IsFresh s (suc version) x
    IsFresh-later r s version (read, found) h =
        (omega (arith, h.0), λ rs e now d. absurd (omega (arith, h.0)))

    All-weaken :
        (P Q : ℕ × Result (List Record) → Type 0)
        → ((x : ℕ × Result (List Record)) → P x → Q x)
        → (xs : List (ℕ × Result (List Record))) → All P xs
        → All Q xs
    All-weaken P Q f [] h = tt
    All-weaken P Q f (x ∷ xs) h = (f x h.0, All-weaken P Q f xs h.1)

    changed-IsConsistent :
        (o : Overlap R) (r : R) → IsValid r → IsConsistent o → IsConsistent (changed repo re r o)
    changed-IsConsistent o r v c = record {
      valid = v;
      bounded = omega (arith, c.bounded);
      fresh = λ e. absurd (omega (arith, c.bounded));
      all_fresh =
          All-weaken _ _ (IsFresh-later o.server.repository r o.version) o.pending c.all_fresh;
    }

    reads-IsConsistent : (o : Overlap R) → IsConsistent o → IsConsistent (read_records repo re o)
    reads-IsConsistent o c =
        let r = o.server.repository in
        let same : (d : Bytes) → view (repo.find r).1 d ≡ view r d =
          λ d. find_keeps_view r d c.valid in
        record {
          valid = laws.find_keeps r c.valid;
          bounded = c.bounded;
          fresh = λ e d. c.fresh e d ∙ sym (same d);
          all_fresh =
              All-append _ o.pending ((o.version, (repo.find r).0) ∷ [])
                (All-weaken _ _ (λ x. IsFresh-same r (repo.find r).1 o.version x same) o.pending
                  c.all_fresh)
                ((omega arith, λ rs e now d. laws.find_view r rs d c.valid e ∙ sym (same d)), tt);
        }

    All-around :
        (P : ℕ × Result (List Record) → Type 0) (before : List (ℕ × Result (List Record)))
        (x : ℕ × Result (List Record)) (after : List (ℕ × Result (List Record)))
        → All P (before ++ x ∷ after)
        → P x × All P (before ++ after)
    All-around P [] x after h = (h.0, h.1)
    All-around P (y ∷ before) x after h =
        let (px, rest) = All-around P before x after h.1 in (px, (h.0, rest))

    install_repository :
        (found : Result (List Record)) (s : Server R)
        → (install repo re found s).1.repository ≡ s.repository
    unfolding install
    install_repository (err e) s = refl
    install_repository (ok rs) s = refl

    install-cached_err :
        (e : Error) (s : Server R) (d : Bytes) → cached (install repo re (err e) s).1 d ≡ cached s d
    unfolding install
    install-cached_err e s d = refl

    install-cached_ok :
        (rs : List Record) (s : Server R) (d : Bytes)
        → cached (install repo re (ok rs) s).1 d ≡ Option.map content_of (last_record d rs)
    unfolding install
    install-cached_ok rs s d =
        let (ts, same, held) = install-cached repo re laws (ok rs) s d refl in
        let back : ts ≡ rs = sym (cc same) in
        held ∙ ap (λ x. Option.map content_of (last_record d x)) back

    installed-IsConsistent :
        (o : Overlap R) (before : List (ℕ × Result (List Record))) (read : ℕ)
        (found : Result (List Record)) (after : List (ℕ × Result (List Record)))
        → IsFresh o.server.repository o.version (read, found)
        → All (IsFresh o.server.repository o.version) (before ++ after)
        → IsConsistent o
        → IsConsistent (install_pending repo re before read found after o)
    unfolding install
    installed-IsConsistent o before read (err e) after this rest c = record {
      valid = c.valid;
      bounded = c.bounded;
      fresh = c.fresh;
      all_fresh = rest;
    }
    installed-IsConsistent o before read (ok rs) after this rest c = record {
      valid = c.valid;
      bounded = this.0;
      fresh = λ e d. install-cached_ok rs o.server d ∙ this.1 rs refl e d;
      all_fresh = rest;
    }

    Next-IsConsistent :
        (o p : Overlap R) → Next repo re Storable o p → IsConsistent o → IsConsistent p
    Next-IsConsistent o _ (Next.reads _) c = reads-IsConsistent o c
    Next-IsConsistent o _ (Next.installs _ before read found after e) c =
        let (this, rest) =
          All-around (IsFresh o.server.repository o.version) before (read, found) after
            (subst (All (IsFresh o.server.repository o.version)) e c.all_fresh) in
        installed-IsConsistent o before read found after this rest c
    Next-IsConsistent o _ (Next.creates _ rec s) c =
        changed-IsConsistent o _ (laws.create_keeps o.server.repository rec s c.valid) c
    Next-IsConsistent o _ (Next.deletes _ domain) c =
        changed-IsConsistent o _ (laws.delete_keeps o.server.repository domain c.valid) c
    Next-IsConsistent o _ (Next.deletes_instance _ i) c =
        changed-IsConsistent o _ (laws.delete_by_instance_id_keeps o.server.repository i c.valid) c

    Run-IsConsistent :
        (s : Server R) (o : Overlap R)
        → IsValid s.repository
        → Run repo re Storable (opened s) o
        → IsConsistent o
    Run-IsConsistent s _ v Run.begun = opened-IsConsistent s v
    Run-IsConsistent s p v (Run.next o _ run step) =
        Next-IsConsistent o p step (Run-IsConsistent s o v run)

    -- In every state behind refreshes and changes that overlap in any order, of which each may fail,
    -- if the tables were read behind the last change, the cache holds for each domain what the
    -- repository holds; for a repository that meets the contract, in which `Find` changes nothing.
    pub Run-cached :
        (s : Server R) (o : Overlap R)
        → IsValid s.repository
        → Run repo re Storable (opened s) o
        → o.shown ≡ o.version
        → (d : Bytes) → cached o.server d ≡ view o.server.repository d
    Run-cached s o v run now d = (Run-IsConsistent s o v run).fresh now d

    install_shown :
        (o : Overlap R) (before after : List (ℕ × Result (List Record))) (read : ℕ)
        (found : Result (List Record)) (rs : List Record)
        → found ≡ ok rs
        → (install_pending repo re before read found after o).shown ≡ read
    install_shown o before after read found rs e = ap (λ x. shown_after read x o.shown) e

    -- From every such state `o`, if `Find` succeeds, two steps lead to a state `p` in which the same
    -- refreshes are pending as in `o`, the repository is as `Find` left it, and the cache holds for
    -- each domain what the repository held in `o`: the server reads the repository, and installs what
    -- it has read, whatever other refreshes have read and not yet installed.
    pub Run-refreshed :
        (s : Server R) (o : Overlap R) (rs : List Record)
        → IsValid s.repository
        → Run repo re Storable (opened s) o
        → (repo.find o.server.repository).0 ≡ ok rs
        → (q : Overlap R) × (p : Overlap R) × Next repo re Storable o q
          × Next repo re Storable q p
          × (p.pending ≡ o.pending)
          × (p.server.repository ≡ (repo.find o.server.repository).1)
          × ((d : Bytes) → cached p.server d ≡ view o.server.repository d)
    Run-refreshed s o rs v run found =
        let read = read_records repo re o in
        let last =
          install_pending repo re o.pending o.version (repo.find o.server.repository).0 [] read in
        let reads : Next repo re Storable o read = Next.reads o in
        let installs : Next repo re Storable read last =
          Next.installs read o.pending o.version (repo.find o.server.repository).0 [] refl in
        let stays : last.server.repository ≡ (repo.find o.server.repository).1 =
          install_repository (repo.find o.server.repository).0 read.server in
        let there : Run repo re Storable (opened s) last =
          Run.next read last (Run.next o read run reads) installs in
        let shown = install_shown read o.pending [] o.version _ rs found in
        (
          read,
          last,
          reads,
          installs,
          append-nil o.pending,
          stays,
          λ d.
              Run-cached s last v there shown d
              ∙ ap (λ r. view r d) stays
              ∙ find_keeps_view o.server.repository d (Run-IsConsistent s o v run).valid,
        )
