-- ===== src/Lib.antt =====
-- Verification library of LibreKDE, the KDE front end of the LibreSCRS smart card agent: the
-- card:/ KIO worker, the credential window, the signing job, the plasmoid's widget, and the
-- wording that they share. Every part talks to the agent through its client library, which is not
-- part of the repository: its records of readers, cards, operations and failures are taken as
-- data, and what it answers is a parameter or an event.
--
-- Base, Base/*             texts, lists, decimals and the Boolean tests that the parts share
-- Shared/Agent             the client library's vocabulary that the code switches on
-- Shared/Registry          shared/agentclient/Cards.cpp and Readers.cpp
-- Shared/ErrorText         shared/agentclient/ErrorText.cpp (Floor: the proofs)
-- Shared/CredentialText    shared/agentclient/CredentialText.cpp
-- Shared/IdentityRows     shared/agentclient/IdentityRows.cpp (Tables: the frozen keys)
-- Kio/Source               components/kio/CardDataSource.h, the interface that the worker reads through
-- Kio/Tree                 components/kio/CardTree.cpp: resolve and list
-- Kio/Render               components/kio/CardRenderers.cpp (Leaves: the texts of the leaf files)
-- Kio/Folders              components/kio/CardWorkerLogic.cpp: stableCertFolderName to resolveCertId
-- Kio/Worker               components/kio/CardWorkerLogic.cpp: the entries (Requests: doListDir, doStat, doMimetype)
-- Kio/Get                  components/kio/CardWorkerLogic.cpp: doGet
-- Kio/AgentSource          components/kio/AgentCardDataSource.cpp, the interface over the client library
-- Credentials/Model        components/credentials/src/CredentialModel.cpp
-- Credentials/Controller   components/credentials/src/CredentialController.cpp: the state and bindCard
--   Controller/Binding     the same file: refresh, classify and the list
--   Controller/Verbs       the same file: the verbs and how one ends
--   Controller/Machine     the handlers as one step on the events of the loop, and what is reachable
-- Credentials/Main         components/credentials/src/main.cpp: which reader a launch binds
-- Signing/Format           shared/signing/MimeFormatMap.cpp, and toSignOptions of SignJob.cpp
-- Signing/Selection        shared/signing/CardSelection.cpp
-- Signing/Job              shared/signing/SignJob.cpp
-- Signing/Seams            shared/signing/SignSeams.cpp
-- Purpose                  components/purpose/librescrs_sign_purpose.cpp (Begun: how start ends)
-- Plasmoid/Unit            components/plasmoid/src/SmartCardHandler.cpp: readerSerialKey to sameReaderUnit
-- Plasmoid/Reader          the same file: the rosters, pickActiveReader and computeCardDetected
-- Plasmoid/CardState       components/plasmoid/src/CardStateModel.cpp
-- Plasmoid/Handler         SmartCardHandler.cpp again: the card of a widget and the reads
--                          of it (Slots: the slots; Machine: all as one step)
-- Plasmoid/Signing         the same file: signFile, the slots of its job, and what is shown of it
-- Plasmoid/Photo           CardPhotoStore.h, CardPhotoProvider.cpp and the photo members of SmartCardHandler.cpp
--                          (Process: the handlers of a process over one store)
-- Plasmoid/Actions         the same file: what a press launches, copies and saves (Reached: what it reaches)
-- Plasmoid/Identity        the same file: rebuildIdentityModel and the layout of an identity
--
-- The worker: a request (do_list_dir, do_stat, do_mimetype, do_get) resolves its url against the
-- capabilities of the cards that are present, reads the card through CardDataSource where it must,
-- and gives a Reply: the reads that it asked for, what it emitted, and the result. The registry is
-- one value during a request, which the worker process serves to its end before the next one.
--
-- The credential window: the Controller record has the members of the class, and with them the
-- client's answers as they stand, the number of the next operation, and the log of what was asked
-- of the agent. Each method is a function on it. A QPointer is an Option. A slot of an operation
-- runs only while the controller holds the operation, since letting go of one disconnects it. The
-- client ends the operations on a card before it deletes the card; `Possible` says so. Property
-- change signals are left out.
--
-- The signing job: SignJob has the members of SignJob::Private, the queued call of beginSign, and
-- the log of what was asked and emitted. What the nested loop of a certificate chooser delivers
-- counts as delivered after the slot that opened it: the slot reads nothing of the card behind the
-- chooser. The card chooser gives back the registry as it stands when it closes.
--
-- The share action: Purpose is the card selection, the two dialogs and the signing job put
-- together. It starts its job at once, so that what the job emits in `start` is a result too; the
-- two slots on the job's end are a function of all that it emits. How a dialog ends is what a
-- function of its rows says, and the registry behind the card's dialog is a value of its own.
--
-- The widget: Plasmoid/Handler has the members that the binding and the reads use. The client
-- deletes a card after it has ended a read of its identity (`Possible` says so), which empties the
-- pointers to the card and its operations; the signal of its registry is an event of its own,
-- behind it. The library's rule for what a card's token asks for is a parameter. The signing of a
-- reader (Plasmoid/Signing) is a machine of its own, on what the widget shows: a job is its
-- number, its connections a function to the reader that its slots captured, and clearing the error
-- line is the other machine's. A row of an identity is a record of its keys. A QSet is a list
-- without repeats, and the order in which a QHash is walked a parameter.
--
-- An identity read: both surfaces assemble its rows by identity_rows and word them by the same
-- functions. The separation of the security checks, the flattening, the rule for dates and the
-- reading order of a group are the client library's, and fields of IdentityLibrary; what a field
-- is on the wire is left open.
--
-- A QString is the list of its code units, and a QByteArray that of its bytes. Qt's QString, QList
-- and QHash are treated as the language's library. The translation catalogue, the client library's
-- describeFailure, UTF-8, base64, the MIME database and the writing of a signed file are
-- parameters, and the properties that need something of them say it in a hypothesis (IsSpoken,
-- IsHeard: no translation is empty; HasDates: no date is; IsConsistent: a reader's card is the
-- registry's; IsDocumented: how Qt reads an address and a numeral). Numbers that are counts or
-- masks are natural numbers. The recursion on fuel is that of the PEM lines, where the fuel is the
-- length of the text, which each round shortens, and that of the numerals, where it is one more
-- than the number.
--
-- Not modelled: the worker process, the display text, the QML files and the set-up of the
-- programs.
mod Base
pub mod Shared
pub mod Kio
pub mod Credentials
pub mod Signing
pub mod Plasmoid
pub mod Purpose
