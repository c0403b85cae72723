-- ===== src/Gateway/Ingest/Twice.antt =====
-- A manifest of apps/gateway/src/main.rs that names a file twice.
use cce.Prelude.{◌≡◌, true, [], text_eq, nat_eq}
use cce.Prelude.Map.{insert}
use cce.Gateway.Ingest.{Disk, StagedFile, path_eq, exists}
use cce.Gateway.Ingest.Tree.{blob_of}

module _ (file : StagedFile) (d : Disk) (h : exists d file.digest ≡ true) where
  linked : Disk
  linked = record d { staging = insert file.rel (blob_of d file) [] }

  emptied : Disk
  unfolding linked
  emptied = record linked { contents = insert (blob_of d file) [] d.contents }
