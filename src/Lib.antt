-- ===== src/Lib.antt =====
-- Verification of the style checker bin/cpplint.py.
--
-- The checker reads a C++ file line by line and reports what breaks the style guide. It keeps a state
-- for the whole run (the filters, the verbosity, the counts, the lines on which a NOLINT comment
-- silences errors), and for each file a state of the `#include` lines, of the function that is being
-- read and of the blocks that are open. A file is first cleansed (raw strings, comments and strings
-- are taken out), and then each check looks at one line of one of the cleansed copies and calls
-- `Error`, which decides by the state of the run whether the error is printed.
--
-- Which file models which part of bin/cpplint.py:
--   Patterns       `Match`, `ReplaceAll`, `Search` and the cache of compiled patterns
--   Lint           `_CppLintState`, `_error_suppressions`, `ParseNolintSuppressions`,
--                  `IsErrorSuppressedByNolint`; Lint/Categories the two lists of names; Lint/Report
--                  `_ShouldPrintError` and `Error`
--   Cleanse        `IsCppString`, `CleanseComments`, `CleansedLines`; Cleanse/RawStrings
--                  `CleanseRawStrings`; Cleanse/MultiLine the four functions on comments over lines
--   Brackets       `FindEndOfExpressionInLine`, `CloseExpression` and their mirrors
--   Angles         `FindNextMatchingAngleBracket`, `FindPreviousMatchingAngleBracket`
--   Functions      `_FunctionState`; Functions/Lengths `CheckForFunctionLengths`
--   FileNames      `FileInfo`, `GetHeaderGuardCPPVariable`, `_DropCommonSuffixes`, `_IsTestFilename`
--   FileChecks     `CheckForCopyright`, `CheckForBadCharacters`, `CheckForNewlineAtEOF`;
--                  FileChecks/Guard `CheckForHeaderGuard`
--   LineChecks     eight checks of one line; LineChecks/Calls `CheckSpacingForFunctionCall`;
--                  LineChecks/NonStandard `CheckForNonStandardConstructs`
--   Nesting        `_BlockInfo`, `_ClassInfo`, `_NamespaceInfo`, `_NestingState`;
--                  Nesting/Preprocessor `UpdatePreprocessor`; Nesting/Update `Update`
--   Blocks         `IsBlankLine`, `GetPreviousNonBlankLine`, `CheckEmptyBlockBody`, `CheckAccess`,
--                  `CheckSectionSpacing`
--   Includes       `_IncludeState`; Includes/Line `_ClassifyInclude`, `CheckIncludeLine`,
--                  `FilesBelongToSameModule`; Includes/Headers `_CPP_HEADERS`
--   Spacing        `CheckSpacing`: Spacing/BlankLines, Spacing/Comments, Spacing/Operators and
--                  Spacing/Layout are its parts, in the order of the source
--   Braces         `CheckBraces`
--   CheckMacros    `_CHECK_MACROS`, `_CHECK_REPLACEMENT`, `CheckCheck`
--   Style          `GetLineWidth`, `CheckStyle`
--   Language       `CheckLanguage`: Language/Casts its casts and `CheckCStyleCast`, Language/Calls
--                  `_GetTextInside` and the tests of calls and types, Language/Arrays the rest
--   References     `CheckForNonConstReference`
--   WhatYouUse     `UpdateIncludeState`, `CheckForIncludeWhatYouUse` and their tables
--   Process        `ProcessLine`; Process/Files `ProcessFileData` and `ProcessFile`
--   CommandLine    `PrintUsage`, `PrintCategories`, `ParseArguments`, `main`; CommandLine/Usage
--                  `_USAGE`
-- The other files of these folders hold what is proved of them. Prelude has the shared helpers, Text
-- the methods of Python's strings, FileNames/Path its posixpath, and Regex its `re`: a parser of
-- patterns (Regex/Parse), the backtracking search (Regex/Run, Regex/Scan), a relation that says what
-- a pattern means (Regex/Meaning), and the proof that the search agrees with it (Regex/Correct).
-- Tests runs the model on small inputs, Tests/Files on whole lines and files; Tests/Witnesses and
-- Tests/Processing apply each theorem at a concrete input.
--
-- How the code is translated. A text is a list of code points, and letters and
-- digits are those of ASCII. A pattern stands in the model as it stands in the source. A method that changes
-- its object returns the new object. A check returns the calls that it makes of its argument `error`,
-- in their order, as a list of `Diagnostic`. A position that is -1 in the source is `none`, and so is
-- the result of code that raises an exception. Stacks are lists with the top first.
--
-- `ProcessFileData` runs the checks for the numbers of the lines of the file only; other than
-- `CheckEmptyBlockBody`, which is `none` there, a check in the model reads a line past the end as the
-- empty text. A malformed pattern is compiled to one that matches nothing, where the source would
-- raise an error; no pattern of the source is malformed.
--
-- Loops over lines and characters are recursions on the list. These have fuel: the search of a
-- pattern, which is given more than the length of the text; the loop of `RemoveMultiLineComments`,
-- with one round for each line and one more; the two loops of `Update`, with one round for each
-- character of the line and one more, since a round takes a character away; and the searches for the
-- top of a repository, with one round for each character of the path and one more.
-- The loop of `CheckCheck` over an expression has one round for each character and one more.
--
-- Parameters stand for what is not in the repository: the file system and the contents of files, the
-- character data of `unicodedata`, `os.linesep`, and what `getopt.getopt` and `int` give. Where the
-- source runs over a dict or a set, the model takes the order of insertion.
--
-- What is not modelled: the extra check functions of `ProcessFile`, since nothing in the repository
-- passes any, the wrapping of stderr in `main`, and negative numbers for --verbose and --linelength.
-- The judge itself, in C++ under src/, is not modelled: it is sockets, threads, a database and the
-- tracing of processes by system calls.
pub mod Prelude
pub mod Text
pub mod Regex
pub mod Patterns
pub mod Lint
pub mod Cleanse
pub mod Brackets
pub mod Functions
pub mod FileNames
pub mod FileChecks
pub mod LineChecks
pub mod Nesting
pub mod Angles
pub mod Blocks
pub mod Includes
pub mod Spacing
pub mod Braces
pub mod CheckMacros
pub mod Style
pub mod Language
pub mod References
pub mod WhatYouUse
pub mod Process
pub mod CommandLine
mod Tests
